-- ===== src/Sidebar/View.antt =====
-- The components of app/frontend/components/layouts/sidebar/sidebar.tsx that read the sidebar's
-- context: each takes the context that `useSidebar` returns.
use opanel.Common.{
  String, Bool, true, false, ◌||◌, Option, none, some, List, [], ◌∷◌, ◌++◌, ◌===◌, if◌then◌else◌,
  or_else, ◌⊎◌, inl, inr,
}
use opanel.Dom.{
  Event, Props, Node, nothing, text, element, host, str, bool, minus, style, handler, jsx, many,
  spread, opt_str, first_given, arg_flag,
}
use opanel.React.{to_value}
use opanel.Ui.Cn.{ClassLibs, cn, lit, given}
use opanel.Ui.Icons.{icon}
use opanel.Ui.Button.{button}
use opanel.Ui.Sheet.{sheet, sheet_content, sheet_header, sheet_title, sheet_description}
use opanel.Sidebar.Provider.{
  SidebarState, expanded, collapsed, state_name, SidebarContext, sidebar_width_mobile, use_sidebar,
}

-- A component that calls `useSidebar`: it throws where there is no provider.
unfoldable pub with_sidebar :
    {M : Type 0} → Option (SidebarContext M) → (SidebarContext M → Node M) → String ⊎ Node M
unfolding use_sidebar
with_sidebar context render = elim (use_sidebar context) [ inl e ↦ inl e | inr c ↦ inr (render c) ]

abbrev pub is_collapsed : SidebarState → Bool
is_collapsed expanded = false
is_collapsed collapsed = true

-- `onClick?.(event)`
abbrev pub call_handler : {M : Type 0} → Option (Event M → List M) → Event M → List M
call_handler none e = []
call_handler (some f) e = f e

-- What Radix hands to `onOpenChange` as an argument of the event.
abbrev pub flag_of : {M : Type 0} → Event M → Bool
flag_of e = arg_flag e.value

module _ {M : Type 0} (L : ClassLibs) (context : SidebarContext M) where
  -- The sidebar on a narrow window: a sheet.
  mobile_sidebar : Option String → Option String → Props M → Node M
  mobile_sidebar side dir p = sheet L (record {
    class_name = none;
    attrs =
        spread
          (("open", bool context.open_mobile)
            ∷ ("onOpenChange", handler (λ e. context.set_open_mobile (to_value (flag_of e))))
            ∷ [])
          p.attrs;
    children = sheet_content L side none (record {
      class_name = some (
          cn L (
            lit "w-(--sidebar-width) bg-sidebar p-0 text-sidebar-foreground [&>button]:hidden"
            ∷ given p.class_name
            ∷ []));
      attrs =
          ("dir", opt_str dir)
          ∷ ("data-sidebar", str "sidebar")
          ∷ ("data-slot", str "sidebar")
          ∷ ("data-mobile", str "true")
          ∷ ("style", style (("--sidebar-width", sidebar_width_mobile) ∷ []))
          ∷ [];
      children = many (
          sheet_header L (record {
            class_name = some "sr-only";
            attrs = [];
            children = many (
                sheet_title L (record { class_name = none; attrs = []; children = text "Sidebar" })
                ∷ sheet_description L (record {
                  class_name = none;
                  attrs = [];
                  children = text "Displays the mobile sidebar.";
                })
                ∷ []);
          })
          ∷ element (host "div") (("className", str "flex h-full w-full flex-col") ∷ []) p.children
          ∷ []);
    });
  })

  -- The sidebar on a wide window: the gap, and the container that holds the children.
  desktop_sidebar : String → String → String → Props M → Node M
  desktop_sidebar side variant collapsible p =
      let padded = variant === "floating" || variant === "inset" in
      element (host "div")
        (("className", str "group peer hidden text-sidebar-foreground md:block")
          ∷ ("data-state", str (state_name context.state))
          ∷ ("data-collapsible", str (if is_collapsed context.state then collapsible else ""))
          ∷ ("data-variant", str variant)
          ∷ ("data-side", str side)
          ∷ ("data-slot", str "sidebar")
          ∷ [])
        (many (
          element (host "div")
            (("data-slot", str "sidebar-gap")
              ∷ (
                "className",
                str (
                    cn L (
                      lit
                        "relative w-(--sidebar-width) bg-transparent transition-[width] duration-200 ease-linear"
                      ∷ lit "group-data-[collapsible=offcanvas]:w-0"
                      ∷ lit "group-data-[side=right]:rotate-180"
                      ∷ lit (
                          if padded
                          then "group-data-[collapsible=icon]:w-[calc(var(--sidebar-width-icon)+(--spacing(4)))]"
                          else "group-data-[collapsible=icon]:w-(--sidebar-width-icon)")
                      ∷ [])),
              )
              ∷ [])
            nothing
          ∷ element (host "div")
              (spread
                (("data-slot", str "sidebar-container")
                  ∷ ("data-side", str side)
                  ∷ (
                    "className",
                    str (
                        cn L (
                          lit
                            "fixed inset-y-0 z-10 hidden h-svh w-(--sidebar-width) transition-[left,right,width] duration-200 ease-linear data-[side=left]:left-0 data-[side=left]:group-data-[collapsible=offcanvas]:left-[calc(var(--sidebar-width)*-1)] data-[side=right]:right-0 data-[side=right]:group-data-[collapsible=offcanvas]:right-[calc(var(--sidebar-width)*-1)] md:flex"
                          ∷ lit (
                              if padded
                              then "p-2 group-data-[collapsible=icon]:w-[calc(var(--sidebar-width-icon)+(--spacing(4))+2px)]"
                              else "group-data-[collapsible=icon]:w-(--sidebar-width-icon) group-data-[side=left]:border-r group-data-[side=right]:border-l")
                          ∷ given p.class_name
                          ∷ [])),
                  )
                  ∷ [])
                p.attrs)
              (element (host "div")
                (("data-sidebar", str "sidebar")
                  ∷ ("data-slot", str "sidebar-inner")
                  ∷ (
                    "className",
                    str
                        "flex size-full flex-col bg-sidebar group-data-[variant=floating]:rounded-xs group-data-[variant=floating]:shadow-2xl group-data-[variant=floating]:shadow-(color:--shadow-surface) group-data-[variant=floating]:ring-1 group-data-[variant=floating]:ring-sidebar-border",
                  )
                  ∷ [])
                p.children)
          ∷ []))

  unfoldable pub sidebar :
      Option String → Option String → Option String → Option String → Props M → Node M
  unfolding mobile_sidebar desktop_sidebar
  sidebar side variant collapsible dir p =
      let kind = or_else collapsible "offcanvas" in
      if kind === "none"
      then jsx (host "div")
          (("data-slot", str "sidebar")
            ∷ (
              "className",
              str (
                  cn L (
                    lit
                      "flex h-full w-(--sidebar-width) flex-col bg-sidebar text-sidebar-foreground"
                    ∷ given p.class_name
                    ∷ [])),
            )
            ∷ [])
          p
      else if context.is_mobile
      then mobile_sidebar (some (or_else side "left")) dir p
      else desktop_sidebar (or_else side "left") (or_else variant "sidebar") kind p

  unfoldable pub sidebar_trigger :
      Option String → Option String → Option Bool → Option (Event M → List M) → Props M → Node M
  unfolding button
  sidebar_trigger variant size as_child on_click p =
      button L (first_given variant (some "ghost")) (first_given size (some "icon-sm")) as_child
        (record {
          class_name = some (cn L (given p.class_name ∷ []));
          attrs =
              spread
                (("data-sidebar", str "trigger")
                  ∷ ("data-slot", str "sidebar-trigger")
                  ∷ ("onClick", handler (λ e. call_handler on_click e ++ context.toggle_sidebar))
                  ∷ [])
                p.attrs;
          children = many (
              icon "menu" []
              ∷ element (host "span") (("className", str "sr-only") ∷ []) (text "Toggle Sidebar")
              ∷ []);
        })

  unfoldable pub sidebar_rail : Props M → Node M
  sidebar_rail p =
      jsx (host "button")
        (("data-sidebar", str "rail")
          ∷ ("data-slot", str "sidebar-rail")
          ∷ ("aria-label", str "Toggle Sidebar")
          ∷ ("tabIndex", minus 1)
          ∷ ("onClick", handler (λ e. context.toggle_sidebar))
          ∷ ("title", str "Toggle Sidebar")
          ∷ (
            "className",
            str (
                cn L (
                  lit
                    "absolute inset-y-0 z-20 hidden w-4 transition-all ease-linear group-data-[side=left]:-right-4 group-data-[side=right]:left-0 after:absolute after:inset-y-0 after:start-1/2 after:w-[2px] hover:after:bg-sidebar-border sm:flex ltr:-translate-x-1/2 rtl:-translate-x-1/2"
                  ∷ lit "in-data-[side=left]:cursor-w-resize in-data-[side=right]:cursor-e-resize"
                  ∷ lit
                      "[[data-side=left][data-state=collapsed]_&]:cursor-e-resize [[data-side=right][data-state=collapsed]_&]:cursor-w-resize"
                  ∷ lit
                      "group-data-[collapsible=offcanvas]:translate-x-0 group-data-[collapsible=offcanvas]:after:left-full hover:group-data-[collapsible=offcanvas]:bg-sidebar"
                  ∷ lit "[[data-side=left][data-collapsible=offcanvas]_&]:-right-2"
                  ∷ lit "[[data-side=right][data-collapsible=offcanvas]_&]:-left-2"
                  ∷ given p.class_name
                  ∷ [])),
          )
          ∷ [])
        p
