-- ===== src/Ui/Breadcrumb.antt =====
-- The components of app/frontend/components/ui/breadcrumb/breadcrumb.tsx.
use opanel.Common.{Bool, false, Option, [], ◌∷◌, if◌then◌else◌, or_else}
use opanel.Dom.{Props, Node, text, element, host, foreign, str, jsx, many, spread, or_node}
use opanel.Ui.Cn.{ClassLibs, cn, lit, given}
use opanel.Ui.Part.{part}
use opanel.Ui.Icons.{icon}

module _ {M : Type 0} (L : ClassLibs) where
  unfoldable pub breadcrumb : Props M → Node M
  breadcrumb p =
      jsx (host "nav")
        (("aria-label", str "breadcrumb")
          ∷ ("data-slot", str "breadcrumb")
          ∷ ("className", str (cn L (given p.class_name ∷ [])))
          ∷ [])
        p

  unfoldable pub breadcrumb_list : Props M → Node M
  breadcrumb_list p =
      part L (host "ol") "breadcrumb-list" []
        (lit "flex flex-wrap items-center gap-1.5 text-lg wrap-break-word text-muted-foreground"
          ∷ [])
        p

  unfoldable pub breadcrumb_item : Props M → Node M
  breadcrumb_item p =
      part L (host "li") "breadcrumb-item" [] (lit "inline-flex items-center gap-1" ∷ []) p

  unfoldable pub breadcrumb_link : Option Bool → Props M → Node M
  breadcrumb_link as_child p =
      part L (if (or_else as_child false) then foreign "Slot.Root" else host "a") "breadcrumb-link"
        [] (lit "transition-colors hover:text-foreground" ∷ []) p

  unfoldable pub breadcrumb_page : Props M → Node M
  breadcrumb_page p =
      part L (host "span") "breadcrumb-page"
        (("role", str "link") ∷ ("aria-disabled", str "true") ∷ ("aria-current", str "page") ∷ [])
        (lit "font-normal text-foreground" ∷ []) p

  unfoldable pub breadcrumb_separator : Props M → Node M
  breadcrumb_separator p =
      element (host "li")
        (spread
          (("data-slot", str "breadcrumb-separator")
            ∷ ("role", str "presentation")
            ∷ ("aria-hidden", str "true")
            ∷ ("className", str (cn L (lit "[&>svg]:size-3.5" ∷ given p.class_name ∷ [])))
            ∷ [])
          p.attrs)
        (or_node p.children (icon "chevronRight" ([])))

  unfoldable pub breadcrumb_ellipsis : Props M → Node M
  breadcrumb_ellipsis p =
      element (host "span")
        (spread
          (("data-slot", str "breadcrumb-ellipsis")
            ∷ ("role", str "presentation")
            ∷ ("aria-hidden", str "true")
            ∷ (
              "className",
              str (
                  cn L (
                    lit "flex size-5 items-center justify-center [&>svg]:size-[18px]"
                    ∷ given p.class_name
                    ∷ [])),
            )
            ∷ [])
          p.attrs)
        (many (
          (icon "menu" ([]))
          ∷ (element (host "span") (("className", str "sr-only") ∷ []) (text "More"))
          ∷ []))
