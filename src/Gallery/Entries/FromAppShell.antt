-- ===== src/Gallery/Entries/FromAppShell.antt =====
-- The entries of app/frontend/components/features/gallery/registry.tsx from "app-shell" to "sidebar".
use opanel.Common.{true, [], ◌∷◌}
use opanel.Dom.{nothing, text, element, host, str, bool, many}
use opanel.Gallery.Entry.{GalleryEntry, component, layouts}

module _ {M : Type 0} where
  unfoldable pub app_shell_entry : GalleryEntry M
  app_shell_entry = record {
    name = "app-shell";
    category = layouts;
    render =
        element (host "div")
          (("className", str "border-border h-64 w-full overflow-hidden rounded-md border") ∷ [])
          (component "AppShell" (("navbarHeight", str "3rem") ∷ []) (
            many (
              (component "AppShellNavbar" [] (
                many (
                  (component "AppShellTrigger" [] nothing)
                  ∷ (element (host "span") (("className", str "text-sm font-medium") ∷ [])
                      (text "Opanel"))
                  ∷ [])))
              ∷ (component "AppShellSidebar" [] (
                  component "SidebarContent" [] (
                    component "SidebarGroup" [] (
                      many (
                        (component "SidebarGroupLabel" [] (text "Project"))
                        ∷ (component "SidebarMenu" [] (
                            component "SidebarMenuItem" []
                              (component "SidebarMenuButton" [] (text "Services"))))
                        ∷ [])))))
              ∷ (component "AppShellMain" [] (
                  component "AppShellContent"
                    (("className", str "text-muted-foreground text-sm") ∷ [])
                    (text "Page content")))
              ∷ [])));
  }

  unfoldable pub sidebar_entry : GalleryEntry M
  sidebar_entry = record {
    name = "sidebar";
    category = layouts;
    render =
        element (host "div")
          (("className", str "border-border h-64 w-full overflow-hidden rounded-md border") ∷ [])
          (component "SidebarProvider" [] (
            component "Sidebar" (("collapsible", str "none") ∷ []) (
              component "SidebarContent" [] (
                component "SidebarGroup" [] (
                  many (
                    (component "SidebarGroupLabel" [] (text "Environments"))
                    ∷ (component "SidebarMenu" [] (
                        many (
                          (component "SidebarMenuItem" [] (
                            component "SidebarMenuButton" (("isActive", bool true) ∷ [])
                              (text "production")))
                          ∷ (component "SidebarMenuItem" []
                              (component "SidebarMenuButton" [] (text "staging")))
                          ∷ [])))
                    ∷ []))))));
  }
