-- ===== src/AppShell.antt =====
-- app/frontend/components/layouts/app-shell/app-shell.tsx: the frame of the interface, made of the
-- parts of the sidebar.
pub mod Inherited
use opanel.Common.{String, Option, none, some, List, [], ◌∷◌, Bool, if◌then◌else◌, or_else}
use opanel.Dom.{Event, Node, Props, host, str, spread}
use opanel.Ui.Cn.{ClassLibs, cn, lit, given, falsy}
use opanel.Ui.Part.{part}
use opanel.Sidebar.Parts.{sidebar_inset}
use opanel.Sidebar.Provider.{SidebarContext, ProviderProps, Effect, sidebar_provider}
use opanel.Sidebar.View.{sidebar, sidebar_trigger, is_collapsed}

-- The props of the sidebar's provider, with those that the shell gives it.
unfoldable pub app_shell :
    {U : Type 0} → ClassLibs → Option String → ProviderProps U → Node (Effect U)
unfolding sidebar_provider
app_shell L navbar_height props = sidebar_provider L (record props {
  class_name = some (
      cn L (
        lit "h-svh w-full overflow-hidden bg-app-shell pt-(--app-shell-navbar-height)"
        ∷ given props.class_name
        ∷ []));
  styles = spread (("--app-shell-navbar-height", or_else navbar_height "4rem") ∷ []) props.styles;
  attrs = spread (("data-slot", str "app-shell") ∷ []) props.attrs;
})

module _ {M : Type 0} (L : ClassLibs) where
  unfoldable pub app_shell_navbar : Props M → Node M
  app_shell_navbar p =
      part L (host "nav") "app-shell-navbar" []
        (lit
            "fixed inset-x-0 top-0 z-30 flex h-(--app-shell-navbar-height) w-full items-center justify-between gap-4 bg-app-shell px-[19px] text-app-shell-foreground"
          ∷ [])
        p

  -- What the frame passes on to the sidebar's trigger.
  abbrev pub trigger_props : SidebarContext M → Props M → Props M
  trigger_props context p = record {
    class_name = some (
        cn L (
          lit
            "shrink-0 text-app-shell-foreground transition-transform hover:bg-app-shell-accent hover:text-app-shell-accent-foreground"
          ∷ (if is_collapsed context.state then lit "md:-translate-x-[9px]" else falsy)
          ∷ given p.class_name
          ∷ []));
    attrs = spread (("data-slot", str "app-shell-trigger") ∷ []) p.attrs;
    children = p.children;
  }

  unfoldable pub app_shell_trigger :
      SidebarContext M
      → Option String
      → Option String
      → Option Bool
      → Option (Event M → List M)
      → Props M
      → Node M
  unfolding sidebar_trigger
  app_shell_trigger context variant size as_child on_click p =
      sidebar_trigger L context variant size as_child on_click (trigger_props context p)

  -- What the frame passes on to the sidebar.
  abbrev pub sidebar_props : Props M → Props M
  sidebar_props p = record {
    class_name = some (
        cn L (
          lit
            "fixed top-(--app-shell-navbar-height) h-[calc(100svh-var(--app-shell-navbar-height))] group-data-[side=left]:border-r-0 group-data-[side=right]:border-l-0"
          ∷ given p.class_name
          ∷ []));
    attrs = spread (("data-slot", str "app-shell-sidebar") ∷ []) p.attrs;
    children = p.children;
  }

  unfoldable pub app_shell_sidebar :
      SidebarContext M
      → Option String
      → Option String
      → Option String
      → Option String
      → Props M
      → Node M
  unfolding sidebar
  app_shell_sidebar context side variant collapsible dir p =
      sidebar L context side variant (some (or_else collapsible "icon")) dir (sidebar_props p)

  unfoldable pub app_shell_main : Props M → Node M
  unfolding sidebar_inset
  app_shell_main p = sidebar_inset L (record {
    class_name = some (
        cn L (
          lit
            "m-0 min-h-0 min-w-0 flex-1 self-stretch overflow-hidden rounded-t-xl border-0 bg-card shadow-2xl shadow-primary/20"
          ∷ given p.class_name
          ∷ []));
    attrs = spread (("data-slot", str "app-shell-main") ∷ []) p.attrs;
    children = p.children;
  })

  unfoldable pub app_shell_content : Props M → Node M
  app_shell_content p =
      part L (host "div") "app-shell-content" []
        (lit "flex w-full flex-1 flex-col overflow-auto bg-background p-4 sm:p-6 [&>*]:shrink-0"
          ∷ [])
        p
