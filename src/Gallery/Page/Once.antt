-- ===== src/Gallery/Page/Once.antt =====
-- Which entries the page of the gallery shows.
use opanel.Common.{
  ℕ, ◌+◌, String, Bool, true, false, ◌&&◌, List, [], ◌∷◌, map, filter, ◌≡◌, refl, ◌===◌, arith,
  if◌then◌else◌, Bool-cases, inl, inr,
}
use opanel.Dom.{Attrs, Tag, host, foreign, get, count, many, template}
use opanel.Dom.Entries.{says}
use opanel.Gallery.Entry.{GalleryCategory, ui, shared, layouts, GalleryEntry}
use opanel.Gallery.Page.{
  same_category, entry_article, entries_of, category_section, page_header, gallery,
}

module _ {M : Type 0} where
  -- An article that a test finds by an id.
  abbrev pub is_article : String → Tag → Attrs M → Bool
  is_article id (host name) attrs = (name === "article") && says (get "data-testid" attrs) id
  is_article id (foreign name) attrs = false

  abbrev pub entry_id : GalleryEntry M → String
  entry_id entry = template ("gallery-entry-" ∷ entry.name ∷ [])

  -- How many entries of a list have an id.
  abbrev pub with_id : String → List (GalleryEntry M) → ℕ
  with_id id [] = 0
  with_id id (entry ∷ rest) = (if entry_id entry === id then 1 else 0) + with_id id rest

  -- How many such articles the entries render themselves.
  abbrev pub rendered : String → List (GalleryEntry M) → ℕ
  rendered id [] = 0
  rendered id (entry ∷ rest) = count (is_article id) entry.render + rendered id rest

  abbrev pub IsPlain : String → List (GalleryEntry M) → Type 0
  IsPlain id entries = rendered id entries ≡ 0

  count-articles :
      (id : String) (keep : GalleryEntry M → Bool) (entries : List (GalleryEntry M))
      → IsPlain id entries
      → count (is_article id) (many (map entry_article (filter keep entries)))
        ≡ with_id id (filter keep entries)
  unfolding count entry_article get
  count-articles id keep [] plain = refl
  count-articles id keep (entry ∷ rest) plain = elim (Bool-cases (keep entry)) [
    | inl kept ↦ rw kept (omega (arith, plain, count-articles id keep rest (omega (arith, plain))))
    | inr out ↦ rw out (count-articles id keep rest (omega (arith, plain)))
  ]

  with_id-if :
      (id : String) (b : Bool) (entry : GalleryEntry M) (entries : List (GalleryEntry M))
      → with_id id (if b then entry ∷ entries else entries)
        ≡ (if b then (if entry_id entry === id then 1 else 0) else 0) + with_id id entries
  with_id-if id true entry entries = refl
  with_id-if id false entry entries = omega arith

one_category :
    (c : GalleryCategory) (k : ℕ)
    → (if same_category c ui then k else 0)
        + ((if same_category c shared then k else 0) + (if same_category c layouts then k else 0))
      ≡ k
one_category ui k = omega arith
one_category shared k = omega arith
one_category layouts k = omega arith

-- The sections have every entry once between them.
with_id-entries_of :
    {M : Type 0} (id : String) (entries : List (GalleryEntry M))
    → with_id id (entries_of entries ui)
        + (with_id id (entries_of entries shared) + with_id id (entries_of entries layouts))
      ≡ with_id id entries
unfolding entries_of
with_id-entries_of id [] = omega arith
with_id-entries_of id (entry ∷ rest) =
    let c = entry.category in
    let one : ℕ = if entry_id entry === id then 1 else 0 in
    omega (
      arith,
      with_id-if id (same_category c ui) entry (entries_of rest ui),
      with_id-if id (same_category c shared) entry (entries_of rest shared),
      with_id-if id (same_category c layouts) entry (entries_of rest layouts),
      one_category c one,
      with_id-entries_of id rest,
    )

-- On the page stand as many articles with an id as the list has entries of that id, whatever their
-- categories: no entry is lost between the sections and none is shown twice, where what the entries
-- render has no such article of its own.
pub count-gallery :
    {M : Type 0} (entries : List (GalleryEntry M)) (id : String)
    → IsPlain id entries
    → count (is_article id) (gallery entries) ≡ with_id id entries
unfolding count gallery category_section entries_of page_header get
count-gallery entries id plain = omega (
  arith,
  count-articles id (λ entry. same_category entry.category ui) entries plain,
  count-articles id (λ entry. same_category entry.category shared) entries plain,
  count-articles id (λ entry. same_category entry.category layouts) entries plain,
  with_id-entries_of id entries,
)
