-- ===== src/Sidebar/Behaviour.antt =====
-- What the components of the sidebar do with its context.
use opanel.Common.{
  String, Bool, false, ◌&&◌, ℕ, ◌≤◌, ◌<◌, Option, none, some, List, [], ◌∷◌, ◌++◌, ◌===◌,
  if◌then◌else◌, or_else, is_some, ◌≡◌, refl, ◌∙◌, ap, arith, ◌≢◌, eq_iff, Bool-cases, inl, inr,
}
use opanel.Dom.{spread, Event, Props, str, get, fire, root_attrs, run_handler, handler}
use opanel.Dom.Attrs.{get-spread_kept, get-spread_given}
use opanel.Ui.Cn.{ClassLibs}
use opanel.Dom.Press.{first_attr}
use opanel.Ui.Tooltip.{tooltip, tooltip_trigger}
use opanel.Ui.Button.{button}
use opanel.Sidebar.Provider.{state_name, SidebarContext}
use opanel.Sidebar.View.{sidebar, sidebar_trigger, call_handler, is_collapsed}
use opanel.Sidebar.MenuButton.{
  TooltipProp, caption, content, sidebar_menu_button, menu_button_click, skeleton_width,
}

≢→=== : (s t : String) → s ≢ t → (s === t) ≡ false
≢→=== s t h = ground (arith, eq_iff s t)

module _ {M : Type 0} (L : ClassLibs) (context : SidebarContext M) where
  -- Clicking the trigger runs the caller's handler first and toggles the sidebar after it.
  pub sidebar_trigger_click :
      (variant size : Option String) (as_child : Option Bool) (on_click : Option (Event M → List M))
      (p : Props M) (e : Event M)
      → get "onClick" p.attrs ≡ none
      → fire "onClick" (sidebar_trigger L context variant size as_child on_click p) e
        ≡ call_handler on_click e ++ context.toggle_sidebar
  unfolding sidebar_trigger button get
  sidebar_trigger_click variant size as_child on_click p e h =
      ap (λ o. run_handler o e)
        (get-spread_given "onClick" _ _ (get-spread_kept "onClick" _ p.attrs h))

  menu_button_click_lem :
      (action : Option (List M)) (on_click : Option (Event M → List M)) (e : Event M)
      → menu_button_click L context action on_click e ≡ (
          if is_collapsed context.state && is_some action
          then e.prevent_default ++ or_else action []
          else call_handler on_click e)
  unfolding menu_button_click
  menu_button_click_lem none on_click e = ground arith
  menu_button_click_lem (some a) on_click e = ground arith

  -- The button itself, under whatever it is wrapped in, has the click of the menu button.
  first_attr-menu_button :
      (as_child is_active : Option Bool) (variant size : Option String)
      (tip : Option (TooltipProp M)) (action : Option (List M))
      (on_click : Option (Event M → List M)) (p : Props M)
      → first_attr "onClick"
          (sidebar_menu_button L context as_child is_active variant size tip action on_click p)
        ≡ some (handler (menu_button_click L context action on_click))
  unfolding sidebar_menu_button first_attr tooltip tooltip_trigger get spread
  first_attr-menu_button as_child is_active variant size none action on_click p =
      rw
        (get-spread_given "onClick" _
          (("onClick", handler (menu_button_click L context action on_click)) ∷ []) refl)
        refl
  first_attr-menu_button as_child is_active variant size (some (caption s)) action on_click p =
      elim (Bool-cases (s === "")) [
        | inl blank ↦ rw blank (
            rw
              (get-spread_given "onClick" _
                (("onClick", handler (menu_button_click L context action on_click)) ∷ []) refl)
              refl)
        | inr full ↦ rw full (
            rw
              (get-spread_given "onClick" _
                (("onClick", handler (menu_button_click L context action on_click)) ∷ []) refl)
              refl)
      ]
  first_attr-menu_button as_child is_active variant size (some (content side q)) action on_click p =
      rw
        (get-spread_given "onClick" _
          (("onClick", handler (menu_button_click L context action on_click)) ∷ []) refl)
        refl

  -- A menu button's click, with a tooltip around the button or without one, and whatever else the
  -- caller passes: the first element that takes clicks is the button. When the sidebar is collapsed and
  -- the button has an action for that, the event's default is prevented and the action runs instead of
  -- the caller's handler; otherwise the caller's handler runs alone.
  pub sidebar_menu_button_click :
      (as_child is_active : Option Bool) (variant size : Option String)
      (tip : Option (TooltipProp M)) (action : Option (List M))
      (on_click : Option (Event M → List M)) (p : Props M) (e : Event M)
      → run_handler
          (first_attr "onClick"
            (sidebar_menu_button L context as_child is_active variant size tip action on_click p))
          e
        ≡ (if is_collapsed context.state && is_some action
            then e.prevent_default ++ or_else action []
            else call_handler on_click e)
  sidebar_menu_button_click as_child is_active variant size tip action on_click p e =
      ap (λ o. run_handler o e)
        (first_attr-menu_button as_child is_active variant size tip action on_click p)
      ∙ menu_button_click_lem action on_click e

  -- On a wide window a sidebar that can collapse names its state, and how it collapses while it is
  -- collapsed.
  pub sidebar_collapsible :
      (side variant collapsible dir : Option String) (p : Props M)
      → or_else collapsible "offcanvas" ≢ "none"
      → context.is_mobile ≡ false
      → (get "data-state" (root_attrs (sidebar L context side variant collapsible dir p))
          ≡ some (str (state_name context.state)))
        × (get "data-collapsible" (root_attrs (sidebar L context side variant collapsible dir p))
            ≡ some
                (str (if is_collapsed context.state then or_else collapsible "offcanvas" else "")))
  unfolding sidebar get
  sidebar_collapsible side variant collapsible dir p h wide =
      rw (≢→=== (or_else collapsible "offcanvas") "none" h, wide) (refl, refl)

-- The width of a placeholder is from 50 to 89 percent.
pub skeleton_width_bounds :
    (numerator denominator : ℕ)
    → numerator < denominator
    → (50 ≤ skeleton_width numerator denominator) × (skeleton_width numerator denominator ≤ 89)
unfolding skeleton_width
skeleton_width_bounds numerator denominator h = grind arith
