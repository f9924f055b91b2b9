-- ===== src/Ui/NavigationMenu.antt =====
-- The components of app/frontend/components/ui/navigation-menu/navigation-menu.tsx.
use opanel.Common.{Bool, true, Option, none, [], ◌∷◌, or_else}
use opanel.Dom.{
  Props, Node, nothing, text, element, host, foreign, str, bool, many, show_if, spread,
}
use opanel.Ui.Cn.{ClassLibs, Cva, cn, lit, given}
use opanel.Ui.Part.{part}
use opanel.Ui.Icons.{icon}

abbrev pub navigation_menu_trigger_style : Cva
navigation_menu_trigger_style = record {
  base =
      "group/navigation-menu-trigger inline-flex h-9 w-max items-center justify-center rounded-xs px-2.5 py-1.5 text-lg font-medium transition-all outline-none hover:bg-muted focus:bg-muted focus-visible:ring-3 focus-visible:ring-ring/50 focus-visible:outline-1 disabled:pointer-events-none disabled:opacity-50 data-popup-open:bg-muted/50 data-popup-open:hover:bg-muted data-open:bg-muted/50 data-open:hover:bg-muted data-open:focus:bg-muted";
  variants = [];
  default_variants = [];
}

module _ {M : Type 0} (L : ClassLibs) where
  unfoldable pub navigation_menu_list : Props M → Node M
  navigation_menu_list p =
      part L (foreign "NavigationMenu.List") "navigation-menu-list" []
        (lit "group flex flex-1 list-none items-center justify-center gap-0" ∷ []) p

  unfoldable pub navigation_menu_item : Props M → Node M
  navigation_menu_item p =
      part L (foreign "NavigationMenu.Item") "navigation-menu-item" [] (lit "relative" ∷ []) p

  unfoldable pub navigation_menu_trigger : Props M → Node M
  navigation_menu_trigger p =
      element (foreign "NavigationMenu.Trigger")
        (spread
          (("data-slot", str "navigation-menu-trigger")
            ∷ (
              "className",
              str (
                  cn L (
                    lit (L.cva navigation_menu_trigger_style ([]) none)
                    ∷ lit "group"
                    ∷ given p.class_name
                    ∷ [])),
            )
            ∷ [])
          p.attrs)
        (many (
          (p.children)
          ∷ (text " ")
          ∷ (icon "chevronDown" (
              (
                "className",
                str
                    "relative top-px ml-1 size-3 transition duration-300 group-data-popup-open/navigation-menu-trigger:rotate-180 group-data-open/navigation-menu-trigger:rotate-180",
              )
              ∷ ("aria-hidden", str "true")
              ∷ []))
          ∷ []))

  unfoldable pub navigation_menu_content : Props M → Node M
  navigation_menu_content p =
      part L (foreign "NavigationMenu.Content") "navigation-menu-content" []
        (lit
            "top-0 left-0 w-full p-1 ease-[cubic-bezier(0.22,1,0.36,1)] group-data-[viewport=false]/navigation-menu:top-full group-data-[viewport=false]/navigation-menu:mt-1.5 group-data-[viewport=false]/navigation-menu:overflow-hidden group-data-[viewport=false]/navigation-menu:rounded-xs group-data-[viewport=false]/navigation-menu:bg-popover group-data-[viewport=false]/navigation-menu:text-popover-foreground group-data-[viewport=false]/navigation-menu:shadow-2xl group-data-[viewport=false]/navigation-menu:shadow-(color:--shadow-surface) group-data-[viewport=false]/navigation-menu:duration-300 data-[motion=from-end]:slide-in-from-right-52 data-[motion=from-start]:slide-in-from-left-52 data-[motion=to-end]:slide-out-to-right-52 data-[motion=to-start]:slide-out-to-left-52 data-[motion^=from-]:animate-in data-[motion^=from-]:fade-in data-[motion^=to-]:animate-out data-[motion^=to-]:fade-out **:data-[slot=navigation-menu-link]:focus:ring-0 **:data-[slot=navigation-menu-link]:focus:outline-none md:absolute md:w-auto group-data-[viewport=false]/navigation-menu:data-open:animate-in group-data-[viewport=false]/navigation-menu:data-open:fade-in-0 group-data-[viewport=false]/navigation-menu:data-open:zoom-in-95 group-data-[viewport=false]/navigation-menu:data-closed:animate-out group-data-[viewport=false]/navigation-menu:data-closed:fade-out-0 group-data-[viewport=false]/navigation-menu:data-closed:zoom-out-95"
          ∷ [])
        p

  unfoldable pub navigation_menu_viewport : Props M → Node M
  navigation_menu_viewport p =
      element (host "div")
        ((
          "className",
          str (cn L (lit "absolute top-full left-0 isolate z-50 flex justify-center" ∷ [])),
        )
          ∷ [])
        (part L (foreign "NavigationMenu.Viewport") "navigation-menu-viewport" []
          (lit
              "origin-top-center relative mt-1.5 h-(--radix-navigation-menu-viewport-height) w-full overflow-hidden rounded-xs bg-popover text-popover-foreground shadow-2xl shadow-(color:--shadow-surface) duration-100 md:w-(--radix-navigation-menu-viewport-width) data-open:animate-in data-open:zoom-in-90 data-closed:animate-out data-closed:zoom-out-90"
            ∷ [])
          p)

  unfoldable pub navigation_menu_link : Props M → Node M
  navigation_menu_link p =
      part L (foreign "NavigationMenu.Link") "navigation-menu-link" []
        (lit
            "flex items-center gap-2 rounded-xs p-2 text-lg transition-all outline-none hover:bg-muted focus:bg-muted focus-visible:ring-3 focus-visible:ring-ring/50 focus-visible:outline-1 in-data-[slot=navigation-menu-content]:rounded-xs data-active:bg-muted/50 data-active:hover:bg-muted data-active:focus:bg-muted [&_svg:not([class*='size-'])]:size-[18px]"
          ∷ [])
        p

  unfoldable pub navigation_menu_indicator : Props M → Node M
  navigation_menu_indicator p =
      element (foreign "NavigationMenu.Indicator")
        (spread
          (("data-slot", str "navigation-menu-indicator")
            ∷ (
              "className",
              str (
                  cn L (
                    lit
                      "top-full z-1 flex h-1.5 items-end justify-center overflow-hidden data-[state=hidden]:animate-out data-[state=hidden]:fade-out data-[state=visible]:animate-in data-[state=visible]:fade-in"
                    ∷ given p.class_name
                    ∷ [])),
            )
            ∷ [])
          p.attrs)
        (element (host "div")
          ((
            "className",
            str
                "relative top-[60%] h-2 w-2 rotate-45 rounded-tl-xs bg-border shadow-2xl shadow-(color:--shadow-surface)",
          )
            ∷ [])
          nothing)

  unfoldable pub navigation_menu : Option Bool → Props M → Node M
  unfolding navigation_menu_viewport
  navigation_menu viewport p =
      element (foreign "NavigationMenu.Root")
        (spread
          (("data-slot", str "navigation-menu")
            ∷ ("data-viewport", bool (or_else viewport true))
            ∷ (
              "className",
              str (
                  cn L (
                    lit
                      "group/navigation-menu relative flex max-w-max flex-1 items-center justify-center"
                    ∷ given p.class_name
                    ∷ [])),
            )
            ∷ [])
          p.attrs)
        (many (
          (p.children)
          ∷ (show_if (or_else viewport true) (
              navigation_menu_viewport
                (record { class_name = none; attrs = []; children = nothing })))
          ∷ []))
