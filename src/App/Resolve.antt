-- ===== src/App/Resolve.antt =====
-- `pageTitle` of app/frontend/lib/page-title.ts and `resolvePage` of app/frontend/lib/resolve-page.ts.
-- `sort` of JavaScript orders by code units.
pub mod Found
use mathlib.Core.Option
use opanel.Common.{
  ℕ, Bool, true, false, ◌&&◌, ◌||◌, Option, none, some, List, [], ◌∷◌, ◌++◌, map, if◌then◌else◌,
  ◌⊎◌, inl, inr, ltb, ◌==◌, drop, length,
}
use opanel.Common.Codes.{Text, codes, text_eq, starts_with, join}

abbrev pub suffix : Text
suffix = codes "Opanel"

unfoldable pub page_title : Text → Text
page_title [] = suffix
page_title (c ∷ title) = (c ∷ title) ++ (codes " · " ++ suffix)

-- An object from paths to the components that the modules export.
abbrev pub PageModules : Type 0 → Type 0
PageModules C = List (Text × C)

abbrev pub before_name : Text
before_name = codes "../pages/"

abbrev pub after_name : Text
after_name = codes ".tsx"

unfoldable pub page_path : Text → Text
page_path name = before_name ++ (name ++ after_name)

unfoldable pub find_page : {C : Type 0} → Text → PageModules C → Option C
find_page path [] = none
find_page path ((p, c) ∷ pages) = if text_eq p path then some c else find_page path pages

-- `path.replace(part, '')`: the first occurrence goes.
unfoldable pub remove_first : Text → Text → Text
unfolding starts_with
remove_first part [] = []
remove_first part (c ∷ s) =
    if starts_with (c ∷ s) part then drop (length part) (c ∷ s) else c ∷ remove_first part s

unfoldable pub display_name : Text → Text
unfolding remove_first
display_name path = remove_first after_name (remove_first before_name path)

-- `a <= b` on texts, by code units.
unfoldable pub text_le : Text → Text → Bool
text_le [] t = true
text_le (a ∷ s) [] = false
text_le (a ∷ s) (b ∷ t) = ltb a b || (a == b) && text_le s t

unfoldable pub insert_text : Text → List Text → List Text
unfolding text_le
insert_text s [] = s ∷ []
insert_text s (t ∷ rest) = if text_le s t then s ∷ t ∷ rest else t ∷ insert_text s rest

unfoldable pub sort : List Text → List Text
unfolding insert_text
sort [] = []
sort (s ∷ rest) = insert_text s (sort rest)

unfoldable pub available : {C : Type 0} → PageModules C → List Text
unfolding sort display_name
available pages = sort (map (λ page. display_name page.0) pages)

unfoldable pub list_names : List Text → Text
unfolding join
list_names [] = codes "(none)"
list_names (name ∷ rest) = join (codes ", ") (name ∷ rest)

unfoldable pub not_found : {C : Type 0} → PageModules C → Text → Text
unfolding available list_names
not_found pages name =
    codes "Inertia page \""
    ++ (name
        ++ (codes "\" was not found in app/frontend/pages/. "
            ++ (codes "Available pages: " ++ list_names (available pages))))

unfoldable pub page_or_error : {C : Type 0} → Text → Option C → Text ⊎ C
page_or_error message none = inl message
page_or_error message (some page) = inr page

-- The error that it throws, or the page.
unfoldable pub resolve_page : {C : Type 0} → PageModules C → Text → Text ⊎ C
unfolding page_or_error find_page page_path not_found
resolve_page pages name = page_or_error (not_found pages name) (find_page (page_path name) pages)
