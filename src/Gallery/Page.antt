-- ===== src/Gallery/Page.antt =====
-- app/frontend/pages/Gallery.tsx, over any list of entries; the page is given `gallery_entries`.

pub mod Once
use opanel.Common.{ℕ, String, Bool, true, false, List, [], ◌∷◌, map, filter, length}
use opanel.Dom.{Attrs, Node, nothing, text, element, host, foreign, str, many, number, template}
use opanel.Gallery.Entry.{GalleryCategory, ui, shared, layouts, GalleryEntry}

abbrev pub category_name : GalleryCategory → String
category_name ui = "ui"
category_name shared = "shared"
category_name layouts = "layouts"

abbrev pub category_label : GalleryCategory → String
category_label ui = "ui — primitives"
category_label shared = "shared — composed, reused by several features"
category_label layouts = "layouts — shells, navigation, page layouts"

abbrev pub category_order : List GalleryCategory
category_order = ui ∷ shared ∷ layouts ∷ []

-- `a === b`
abbrev pub same_category : GalleryCategory → GalleryCategory → Bool
same_category ui ui = true
same_category shared shared = true
same_category layouts layouts = true
same_category _ _ = false

module _ {M : Type 0} where
  unfoldable pub entry_article : GalleryEntry M → Node M
  entry_article entry =
      element (host "article")
        (("data-testid", str (template ("gallery-entry-" ∷ entry.name ∷ [])))
          ∷ ("className", str "border-border flex flex-col gap-3 rounded-lg border p-4")
          ∷ [])
        (many (
          element (host "h3") (("className", str "font-mono text-sm") ∷ []) (text entry.name)
          ∷ element (host "div") (("className", str "flex flex-wrap items-start gap-4") ∷ [])
              entry.render
          ∷ []))

  unfoldable pub entries_of : List (GalleryEntry M) → GalleryCategory → List (GalleryEntry M)
  entries_of entries category = filter (λ entry. same_category entry.category category) entries

  unfoldable pub category_section : List (GalleryEntry M) → GalleryCategory → Node M
  unfolding entry_article entries_of
  category_section entries category =
      element (host "section")
        (("className", str "flex flex-col gap-6")
          ∷ ("data-testid", str (template ("gallery-" ∷ category_name category ∷ [])))
          ∷ [])
        (many (
          element (host "h2")
            (("className", str "text-muted-foreground text-xs font-medium tracking-wide uppercase")
              ∷ [])
            (text (category_label category))
          ∷ many (map entry_article (entries_of entries category))
          ∷ []))

  unfoldable pub page_header : ℕ → Node M
  page_header total = element (host "header") (("className", str "flex flex-col gap-1") ∷ []) (
      many (
        element (host "h1") (("className", str "text-2xl font-semibold tracking-tight") ∷ [])
          (text "Component gallery")
        ∷ element (host "p") (("className", str "text-muted-foreground text-sm") ∷ []) (
            many (
              number total
              ∷ text
                  " components imported from the existing library. The Reuse Gate (Annex I §6.3) is evaluated against this set and against"
              ∷ text " "
              ∷ element (host "code") [] (text "app/frontend/components/INVENTORY.md")
              ∷ text "."
              ∷ []))
        ∷ []))

  unfoldable pub gallery : List (GalleryEntry M) → Node M
  unfolding page_header category_section
  gallery entries = many (
      element (foreign "Head") (("title", str "Component gallery") ∷ []) nothing
      ∷ element (host "main") (("className", str "mx-auto flex max-w-4xl flex-col gap-10 p-8") ∷ [])
          (many (
            page_header (length entries)
            ∷ many (map (category_section entries) category_order)
            ∷ []))
      ∷ [])
