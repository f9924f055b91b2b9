-- ===== src/Ui/Pagination.antt =====
-- The components of app/frontend/components/ui/pagination/pagination.tsx.
use opanel.Common.{String, Bool, true, false, Option, some, [], ◌∷◌, if◌then◌else◌, or_else}
use opanel.Dom.{
  Props, Node, text, element, host, str, bool, undefined, jsx, many, spread, all_attrs, first_given,
  opt_bool,
}
use opanel.Ui.Cn.{ClassLibs, cn, lit, given}
use opanel.Ui.Part.{part}
use opanel.Ui.Icons.{icon}
use opanel.Ui.Button.{button}

module _ {M : Type 0} (L : ClassLibs) where
  unfoldable pub pagination : Props M → Node M
  pagination p =
      jsx (host "nav")
        (("role", str "navigation")
          ∷ ("aria-label", str "pagination")
          ∷ ("data-slot", str "pagination")
          ∷ (
            "className",
            str (cn L (lit "mx-auto flex w-full justify-center" ∷ given p.class_name ∷ [])),
          )
          ∷ [])
        p

  unfoldable pub pagination_content : Props M → Node M
  pagination_content p =
      part L (host "ul") "pagination-content" [] (lit "flex items-center gap-0.5" ∷ []) p

  unfoldable pub pagination_item : Props M → Node M
  pagination_item p =
      element (host "li") (spread (("data-slot", str "pagination-item") ∷ []) (all_attrs p))
        p.children

  unfoldable pub pagination_link : Option Bool → Option String → Props M → Node M
  unfolding button
  pagination_link is_active size p =
      button L (some (if (or_else is_active false) then "outline" else "ghost"))
        (some (or_else size "icon")) (some true)
        (record {
          class_name = some (cn L (given p.class_name ∷ []));
          attrs = [];
          children =
              (jsx (host "a")
                (("aria-current", (if (or_else is_active false) then str "page" else undefined))
                  ∷ ("data-slot", str "pagination-link")
                  ∷ ("data-active", opt_bool is_active)
                  ∷ [])
                p);
        })

  unfoldable pub pagination_previous :
      Option String → Option Bool → Option String → Props M → Node M
  unfolding pagination_link
  pagination_previous caption is_active size p =
      pagination_link is_active (first_given size (some "default")) (record {
        class_name = some (cn L (lit "pl-1.5!" ∷ given p.class_name ∷ []));
        attrs = spread (("aria-label", str "Go to previous page") ∷ []) p.attrs;
        children =
            (many (
              (icon "chevronLeft" (("data-icon", str "inline-start") ∷ []))
              ∷ (element (host "span") (("className", str "hidden sm:block") ∷ [])
                  (text (or_else caption "Previous")))
              ∷ []));
      })

  unfoldable pub pagination_next : Option String → Option Bool → Option String → Props M → Node M
  unfolding pagination_link
  pagination_next caption is_active size p =
      pagination_link is_active (first_given size (some "default")) (record {
        class_name = some (cn L (lit "pr-1.5!" ∷ given p.class_name ∷ []));
        attrs = spread (("aria-label", str "Go to next page") ∷ []) p.attrs;
        children =
            (many (
              (element (host "span") (("className", str "hidden sm:block") ∷ [])
                (text (or_else caption "Next")))
              ∷ (icon "chevronRight" (("data-icon", str "inline-end") ∷ []))
              ∷ []));
      })

  unfoldable pub pagination_ellipsis : Props M → Node M
  pagination_ellipsis p =
      element (host "span")
        (spread
          (("aria-hidden", bool true)
            ∷ ("data-slot", str "pagination-ellipsis")
            ∷ (
              "className",
              str (
                  cn L (
                    lit
                      "flex size-8 items-center justify-center [&_svg:not([class*='size-'])]:size-[18px]"
                    ∷ given p.class_name
                    ∷ [])),
            )
            ∷ [])
          p.attrs)
        (many (
          (icon "menu" ([]))
          ∷ (element (host "span") (("className", str "sr-only") ∷ []) (text "More pages"))
          ∷ []))
