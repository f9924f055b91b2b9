-- ===== src/Sidebar/MenuButton.antt =====
-- The buttons and placeholders of the sidebar's menus, in
-- app/frontend/components/layouts/sidebar/sidebar.tsx.
use opanel.Common.{
  String, Bool, true, false, not, ◌||◌, ℕ, ◌+◌, ◌*◌, ◌/◌, Option, none, some, List, [], ◌∷◌, ◌++◌,
  ◌===◌, if◌then◌else◌, or_else, is_some,
}
use opanel.Dom.{
  Event, Props, Node, nothing, text, element, host, foreign, str, bool, style, handler, undefined,
  many, show_if, spread, template,
}
use opanel.Common.Decimal.{decimal}
use opanel.Ui.Cn.{ClassLibs, cn, lit, given}
use opanel.Ui.Skeleton.{skeleton}
use opanel.Ui.Tooltip.{tooltip, tooltip_trigger, tooltip_content}
use opanel.Sidebar.Parts.{sidebar_menu_button_variants}
use opanel.Sidebar.Provider.{SidebarContext}
use opanel.Sidebar.View.{is_collapsed, call_handler}

-- The tooltip of a menu button: a text, or the props of `TooltipContent`.
pub data TooltipProp (M : Type 0) : Type 0 where
  caption : String → TooltipProp M
  content : Option ℕ → Props M → TooltipProp M

module _ {M : Type 0} (L : ClassLibs) (context : SidebarContext M) where
  -- The click of a menu button: when the sidebar is collapsed and there is an action for that, the
  -- action replaces the click.
  unfoldable pub menu_button_click : Option (List M) → Option (Event M → List M) → Event M → List M
  menu_button_click none on_click e = call_handler on_click e
  menu_button_click (some on_collapsed_action) on_click e =
      if is_collapsed context.state
      then e.prevent_default ++ on_collapsed_action
      else call_handler on_click e

  plain_menu_button :
      Option Bool
      → Option Bool
      → Option String
      → Option String
      → Option (List M)
      → Option (Event M → List M)
      → Props M
      → Node M
  unfolding menu_button_click
  plain_menu_button as_child is_active variant size on_collapsed_action on_click p =
      element (if or_else as_child false then foreign "Slot.Root" else host "button")
        (spread
          (spread
            (("data-slot", str "sidebar-menu-button")
              ∷ ("data-sidebar", str "menu-button")
              ∷ ("data-size", str (or_else size "default"))
              ∷ ("data-active", bool (or_else is_active false))
              ∷ (
                "data-collapsed-action",
                if is_some on_collapsed_action then bool true else undefined,
              )
              ∷ (
                "className",
                str (
                    cn L (
                      lit (
                        L.cva sidebar_menu_button_variants
                          (("variant", some (or_else variant "default"))
                            ∷ ("size", some (or_else size "default"))
                            ∷ [])
                          none)
                      ∷ given p.class_name
                      ∷ [])),
              )
              ∷ [])
            p.attrs)
          (("onClick", handler (menu_button_click on_collapsed_action on_click)) ∷ []))
        p.children

  tooltip_props : TooltipProp M → Option ℕ × Props M
  tooltip_props (caption s) = (none, record { class_name = none; attrs = []; children = text s })
  tooltip_props (content side_offset p) = (side_offset, p)

  -- `!tooltip` holds of no tooltip and of an empty text.
  has_tooltip : Option (TooltipProp M) → Bool
  has_tooltip none = false
  has_tooltip (some (caption s)) = not (s === "")
  has_tooltip (some (content side_offset p)) = true

  with_tooltip : Node M → Option (TooltipProp M) → Node M
  unfolding tooltip_props tooltip tooltip_trigger tooltip_content
  with_tooltip menu_button none = menu_button
  with_tooltip menu_button (some t) =
      let (side_offset, q) = tooltip_props t in
      tooltip L (record {
        class_name = none;
        attrs = [];
        children = many (
            tooltip_trigger L (record {
              class_name = none;
              attrs = ("asChild", bool true) ∷ [];
              children = menu_button;
            })
            ∷ tooltip_content L side_offset (record q {
              attrs =
                  spread
                    (("side", str "right")
                      ∷ ("align", str "center")
                      ∷ ("hidden", bool (not (is_collapsed context.state) || context.is_mobile))
                      ∷ [])
                    q.attrs;
            })
            ∷ []);
      })

  unfoldable pub sidebar_menu_button :
      Option Bool
      → Option Bool
      → Option String
      → Option String
      → Option (TooltipProp M)
      → Option (List M)
      → Option (Event M → List M)
      → Props M
      → Node M
  unfolding plain_menu_button has_tooltip with_tooltip
  sidebar_menu_button as_child is_active variant size tip on_collapsed_action on_click p =
      let menu_button =
        plain_menu_button as_child is_active variant size on_collapsed_action on_click p in
      if has_tooltip tip then with_tooltip menu_button tip else menu_button

-- `Math.floor(Math.random() * 40) + 50`, where `Math.random()` is the fraction `numerator / denominator`.
unfoldable pub skeleton_width : ℕ → ℕ → ℕ
skeleton_width numerator denominator = numerator * 40 / denominator + 50

module _ {M : Type 0} (L : ClassLibs) where
  unfoldable pub sidebar_menu_skeleton : ℕ × ℕ → Option Bool → Props M → Node M
  unfolding skeleton_width skeleton decimal
  sidebar_menu_skeleton (numerator, denominator) show_icon p =
      element (host "div")
        (spread
          (("data-slot", str "sidebar-menu-skeleton")
            ∷ ("data-sidebar", str "menu-skeleton")
            ∷ (
              "className",
              str (
                  cn L
                    (lit "flex h-12 items-center gap-3 rounded-xs px-4" ∷ given p.class_name ∷ [])),
            )
            ∷ [])
          p.attrs)
        (many (
          show_if (or_else show_icon false) (
            skeleton L (record {
              class_name = some "size-[18px] rounded-xs";
              attrs = ("data-sidebar", str "menu-skeleton-icon") ∷ [];
              children = nothing;
            }))
          ∷ skeleton L (record {
            class_name = some "h-4 max-w-(--skeleton-width) flex-1";
            attrs =
                ("data-sidebar", str "menu-skeleton-text")
                ∷ (
                  "style",
                  style (
                      (
                        "--skeleton-width",
                        template (decimal (skeleton_width numerator denominator) ∷ "%" ∷ []),
                      )
                      ∷ []),
                )
                ∷ [];
            children = nothing;
          })
          ∷ []))
