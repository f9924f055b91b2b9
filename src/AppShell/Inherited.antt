-- ===== src/AppShell/Inherited.antt =====
-- What the frame keeps of the sidebar's behaviour.
use opanel.Common.{
  String, Bool, false, Option, none, some, List, [], ◌∷◌, ◌++◌, or_else, ◌≡◌, ◌≢◌, if◌then◌else◌,
}
use opanel.Dom.{Event, Props, str, get, fire, root_attrs}
use opanel.Dom.Attrs.{get-spread_kept, get-spread_given}
use opanel.Ui.Cn.{ClassLibs}
use opanel.Ui.Button.{button}
use opanel.Sidebar.Provider.{SidebarContext}
use opanel.Sidebar.View.{is_collapsed, call_handler, sidebar_trigger}
use opanel.Sidebar.Behaviour.{sidebar_trigger_click, sidebar_collapsible}
use opanel.AppShell.{trigger_props, sidebar_props, app_shell_trigger, app_shell_sidebar}

module _ {M : Type 0} (L : ClassLibs) (context : SidebarContext M) where
  -- The frame's trigger toggles the sidebar after the caller's handler, and has a slot of its own,
  -- if the caller does not give other ones.
  pub app_shell_trigger-click :
      (variant size : Option String) (as_child : Option Bool) (on_click : Option (Event M → List M))
      (p : Props M) (e : Event M)
      → get "onClick" p.attrs ≡ none
      → get "data-slot" p.attrs ≡ none
      → (fire "onClick" (app_shell_trigger L context variant size as_child on_click p) e
          ≡ call_handler on_click e ++ context.toggle_sidebar)
        × (get "data-slot"
              (root_attrs (app_shell_trigger L context variant size as_child on_click p))
            ≡ some (str "app-shell-trigger"))
  unfolding app_shell_trigger sidebar_trigger button get
  app_shell_trigger-click variant size as_child on_click p e h slot = (
    sidebar_trigger_click L context variant size as_child on_click (trigger_props L context p) e
        (get-spread_kept "onClick" (("data-slot", str "app-shell-trigger") ∷ []) p.attrs h),
    get-spread_given "data-slot" _ _
        (get-spread_given "data-slot" _ _ (get-spread_kept "data-slot" _ p.attrs slot)),
  )

  -- On a wide window the frame's sidebar collapses to icons unless the caller says otherwise, and
  -- names how it collapses exactly while it is collapsed.
  pub app_shell_sidebar-collapsible :
      (side variant collapsible dir : Option String) (p : Props M)
      → or_else collapsible "icon" ≢ "none"
      → context.is_mobile ≡ false
      → get "data-collapsible"
          (root_attrs (app_shell_sidebar L context side variant collapsible dir p))
        ≡ some (str (if is_collapsed context.state then or_else collapsible "icon" else ""))
  unfolding app_shell_sidebar
  app_shell_sidebar-collapsible side variant collapsible dir p h wide =
      (sidebar_collapsible L context side variant (some (or_else collapsible "icon")) dir
        (sidebar_props L p) h wide).1
