-- ===== src/App/Resolve/Found.antt =====
-- When a page is found, and what the error lists where it is not.
use mathlib.Core.List.{Perm, append_cancel_left, append_cancel_right}
use mathlib.Core.List.Perm
use mathlib.Core.Path.{ap, ap₂}
use opanel.Common.{
  true, false, Option, none, some, List, [], ◌∷◌, ◌++◌, map, if◌then◌else◌, ◌⊎◌, inl, inr, length,
  ◌≡◌, ◌≢◌, refl, ◌∙◌, arith, All, length-append, Bool-cases,
}
use opanel.Common.Codes.{join, Text, codes, text_eq, text_eq_iff, starts_with}
use opanel.App.Resolve.{
  suffix, page_title, PageModules, before_name, after_name, page_path, find_page, remove_first,
  display_name, text_le, insert_text, sort, available, list_names, not_found, page_or_error,
  resolve_page,
}

-- Where the page of a name is.
abbrev pub file_of : Text → Text
file_of name = codes "../pages/" ++ (name ++ codes ".tsx")

-- The modules of an application whose pages have these names.
abbrev pub modules_of : {C : Type 0} → List (Text × C) → PageModules C
modules_of [] = []
modules_of ((name, c) ∷ rest) = (file_of name, c) ∷ modules_of rest

abbrev pub page_named : {C : Type 0} → Text → List (Text × C) → Option C
page_named name [] = none
page_named name ((n, c) ∷ rest) = if text_eq n name then some c else page_named name rest

page_path_lem : (name : Text) → page_path name ≡ file_of name
unfolding page_path
page_path_lem name = refl

file_of_injective : (a b : Text) → file_of a ≡ file_of b → a ≡ b
file_of_injective a b e = append_cancel_right _ _ _ (append_cancel_left (codes "../pages/") _ _ e)

find_page-modules_of :
    {C : Type 0} (name : Text) (pages : List (Text × C))
    → find_page (file_of name) (modules_of pages) ≡ page_named name pages
unfolding find_page
find_page-modules_of name [] = refl
find_page-modules_of name ((n, c) ∷ rest) = ground (
  arith,
  find_page-modules_of name rest,
  text_eq_iff n name,
  text_eq_iff (file_of n) (file_of name),
  file_of_injective n name,
  ap file_of {x = n} {y = name},
)

-- A name without a dot, so that the extension is the first `.tsx` of the path.
abbrev pub IsDotless : Text → Type 0
IsDotless = All (λ unit. unit ≢ b'.')

remove_first-after_name :
    (name : Text) → IsDotless name → remove_first after_name (name ++ after_name) ≡ name
unfolding remove_first starts_with
remove_first-after_name [] h = refl
remove_first-after_name (c ∷ s) h = ground (arith, remove_first-after_name s h.1, h.0)

remove_first-before_name :
    (name : Text) → remove_first before_name (file_of name) ≡ name ++ after_name
unfolding remove_first starts_with
remove_first-before_name name = refl

display_name-file_of : (name : Text) → IsDotless name → display_name (file_of name) ≡ name
unfolding display_name
display_name-file_of name h =
    ap (remove_first after_name) (remove_first-before_name name) ∙ remove_first-after_name name h

insert_text-perm : (s : Text) (names : List Text) → Perm (insert_text s names) (s ∷ names)
unfolding insert_text
insert_text-perm s [] = Perm.refl _
insert_text-perm s (t ∷ rest) = elim (Bool-cases (text_le s t)) [
  | inl first ↦ rw first (Perm.refl _)
  | inr later ↦ rw later (Perm.trans (Perm.cons t (insert_text-perm s rest)) (Perm.swap _ _ _))
]

sort-perm : (names : List Text) → Perm (sort names) names
unfolding sort
sort-perm [] = Perm.refl _
sort-perm (s ∷ rest) = Perm.trans (insert_text-perm s (sort rest)) (Perm.cons s (sort-perm rest))

-- In the order of `text_le`.
abbrev pub IsSorted : List Text → Type 0
IsSorted [] = Unit
IsSorted (s ∷ []) = Unit
IsSorted (s ∷ t ∷ rest) = (text_le s t ≡ true) × IsSorted (t ∷ rest)

text_le_total : (s t : Text) → text_le s t ≡ false → text_le t s ≡ true
unfolding text_le
text_le_total [] t h = cc
text_le_total (a ∷ s) [] h = refl
text_le_total (a ∷ s) (b ∷ t) h = ground (arith, text_le_total s t)

insert_text-IsSorted :
    (s : Text) (names : List Text) → IsSorted names → IsSorted (insert_text s names)
unfolding insert_text
insert_text-IsSorted s [] h = tt
insert_text-IsSorted s (t ∷ []) h = elim (Bool-cases (text_le s t)) [
  | inl first ↦ rw first (first, tt)
  | inr later ↦ rw later (text_le_total s t later, tt)
]
insert_text-IsSorted s (t ∷ u ∷ rest) h = elim (Bool-cases (text_le s t)) [
  | inl first ↦ rw first (first, h)
  | inr later ↦ elim (Bool-cases (text_le s u)) [
    | inl second ↦ rw (later, second) (text_le_total s t later, (second, h.1))
    | inr after ↦ rw (later, after) (h.0, rw after at (insert_text-IsSorted s (u ∷ rest) h.1))
  ]
]

sort-IsSorted : (names : List Text) → IsSorted (sort names)
unfolding sort
sort-IsSorted [] = tt
sort-IsSorted (s ∷ rest) = insert_text-IsSorted s (sort rest) (sort-IsSorted rest)

abbrev pub names_of : {C : Type 0} → List (Text × C) → List Text
names_of pages = map (λ page. page.0) pages

display_names :
    {C : Type 0} (pages : List (Text × C))
    → All IsDotless (names_of pages)
    → map (λ page. display_name page.0) (modules_of pages) ≡ names_of pages
display_names [] h = refl
display_names ((name, c) ∷ rest) h =
    ap₂ (λ n ns. n ∷ ns) (display_name-file_of name h.0) (display_names rest h.1)

-- What the error lists are the names of the pages, each once for each page of that name, in order;
-- the names have no dot.
pub available-modules_of :
    {C : Type 0} (pages : List (Text × C))
    → All IsDotless (names_of pages)
    → Perm (available (modules_of pages)) (names_of pages) × IsSorted (available (modules_of pages))
unfolding available
available-modules_of pages h =
    rw (display_names pages h) (sort-perm (names_of pages), sort-IsSorted (names_of pages))

-- The names of a list in a row, or a note that there are none.
abbrev pub listed : List Text → Text
listed [] = codes "(none)"
listed (name ∷ rest) = join (codes ", ") (name ∷ rest)

-- The page that was asked for, or the message that names it and lists what there is.
abbrev pub page_or_message : {C : Type 0} → Text → List Text → Option C → Text ⊎ C
page_or_message name names (some page) = inr page
page_or_message name names none = inl (
    codes "Inertia page \""
    ++ (name
        ++ (codes "\" was not found in app/frontend/pages/. Available pages: " ++ listed names)))

list_names-listed : (names : List Text) → list_names names ≡ listed names
unfolding list_names
list_names-listed [] = refl
list_names-listed (name ∷ rest) = refl

outcome :
    {C : Type 0} (pages : PageModules C) (name : Text) (found : Option C)
    → page_or_error (not_found pages name) found ≡ page_or_message name (available pages) found
unfolding page_or_error not_found
outcome pages name (some page) = refl
outcome pages name none = rw (list_names-listed (available pages)) refl

available-sort :
    {C : Type 0} (pages : List (Text × C))
    → All IsDotless (names_of pages)
    → available (modules_of pages) ≡ sort (names_of pages)
unfolding available
available-sort pages h = rw (display_names pages h) refl

-- In an application whose pages have names without a dot, a name resolves to the first page that has
-- it; if none has it, the error is thrown that names what was asked for and lists the names of the
-- pages, sorted, or says that there are none.
pub resolve_page-modules_of :
    {C : Type 0} (name : Text) (pages : List (Text × C))
    → All IsDotless (names_of pages)
    → resolve_page (modules_of pages) name
      ≡ page_or_message name (sort (names_of pages)) (page_named name pages)
unfolding resolve_page
resolve_page-modules_of name pages h =
    rw (page_path_lem name, find_page-modules_of name pages)
      (outcome (modules_of pages) name (page_named name pages)
        ∙ ap (λ names. page_or_message name names (page_named name pages)) (available-sort pages h))

-- Two pages have one title only if they were given one title.
pub page_title_injective : (a b : Text) → page_title a ≡ page_title b → a ≡ b
unfolding page_title
page_title_injective [] [] e = refl
page_title_injective [] (c ∷ b) e =
    absurd (omega (arith, ap length e, length-append (c ∷ b) (codes " · " ++ suffix)))
page_title_injective (c ∷ a) [] e =
    absurd (omega (arith, ap length e, length-append (c ∷ a) (codes " · " ++ suffix)))
page_title_injective (c ∷ a) (d ∷ b) e = append_cancel_right (c ∷ a) (d ∷ b) _ e
