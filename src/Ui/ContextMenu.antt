-- ===== src/Ui/ContextMenu.antt =====
-- The components of app/frontend/components/ui/context-menu/context-menu.tsx.
use opanel.Common.{String, Bool, Option, [], ◌∷◌, or_else}
use opanel.Dom.{
  Props, Node, element, host, foreign, str, many, spread, all_attrs, opt_bool, opt_value, Value,
}
use opanel.Ui.Cn.{ClassLibs, cn, lit, given}
use opanel.Ui.Part.{part}
use opanel.Ui.Icons.{icon}

module _ {M : Type 0} (L : ClassLibs) where
  unfoldable pub context_menu : Props M → Node M
  context_menu p =
      element (foreign "ContextMenu.Root")
        (spread (("data-slot", str "context-menu") ∷ []) (all_attrs p)) p.children

  unfoldable pub context_menu_trigger : Props M → Node M
  context_menu_trigger p =
      part L (foreign "ContextMenu.Trigger") "context-menu-trigger" [] (lit "select-none" ∷ []) p

  unfoldable pub context_menu_group : Props M → Node M
  context_menu_group p =
      element (foreign "ContextMenu.Group")
        (spread (("data-slot", str "context-menu-group") ∷ []) (all_attrs p)) p.children

  unfoldable pub context_menu_portal : Props M → Node M
  context_menu_portal p =
      element (foreign "ContextMenu.Portal")
        (spread (("data-slot", str "context-menu-portal") ∷ []) (all_attrs p)) p.children

  unfoldable pub context_menu_sub : Props M → Node M
  context_menu_sub p =
      element (foreign "ContextMenu.Sub")
        (spread (("data-slot", str "context-menu-sub") ∷ []) (all_attrs p)) p.children

  unfoldable pub context_menu_radio_group : Props M → Node M
  context_menu_radio_group p =
      element (foreign "ContextMenu.RadioGroup")
        (spread (("data-slot", str "context-menu-radio-group") ∷ []) (all_attrs p)) p.children

  unfoldable pub context_menu_content : Props M → Node M
  context_menu_content p = element (foreign "ContextMenu.Portal") ([]) (
      part L (foreign "ContextMenu.Content") "context-menu-content" []
        (lit
            "z-50 max-h-(--radix-context-menu-content-available-height) w-max min-w-48 max-w-[calc(100vw-2rem)] origin-(--radix-context-menu-content-transform-origin) overflow-x-hidden overflow-y-auto rounded-xs bg-popover p-1 text-popover-foreground shadow-2xl shadow-(color:--shadow-surface) duration-100 data-[side=bottom]:slide-in-from-top-2 data-[side=left]:slide-in-from-right-2 data-[side=right]:slide-in-from-left-2 data-[side=top]:slide-in-from-bottom-2 data-open:animate-in data-open:fade-in-0 data-open:zoom-in-95 data-closed:animate-out data-closed:fade-out-0 data-closed:zoom-out-95"
          ∷ [])
        p)

  unfoldable pub context_menu_item : Option Bool → Option String → Props M → Node M
  context_menu_item inset variant p =
      part L (foreign "ContextMenu.Item") "context-menu-item"
        (("data-inset", opt_bool inset) ∷ ("data-variant", str (or_else variant "default")) ∷ [])
        (lit
            "group/context-menu-item relative flex cursor-default items-center gap-1.5 rounded-xs px-1.5 py-1 text-lg outline-hidden select-none focus:bg-accent focus:text-accent-foreground data-inset:pl-7 data-[variant=destructive]:text-destructive data-[variant=destructive]:focus:bg-destructive/10 data-[variant=destructive]:focus:text-destructive dark:data-[variant=destructive]:focus:bg-destructive/20 data-disabled:pointer-events-none data-disabled:opacity-50 [&_svg]:pointer-events-none [&_svg]:shrink-0 [&_svg:not([class*='size-'])]:size-[18px] focus:*:[svg]:text-accent-foreground data-[variant=destructive]:*:[svg]:text-destructive"
          ∷ [])
        p

  unfoldable pub context_menu_sub_trigger : Option Bool → Props M → Node M
  context_menu_sub_trigger inset p =
      element (foreign "ContextMenu.SubTrigger")
        (spread
          (("data-slot", str "context-menu-sub-trigger")
            ∷ ("data-inset", opt_bool inset)
            ∷ (
              "className",
              str (
                  cn L (
                    lit
                      "flex cursor-default items-center gap-1.5 rounded-xs px-1.5 py-1 text-lg outline-hidden select-none focus:bg-accent focus:text-accent-foreground data-inset:pl-7 data-open:bg-accent data-open:text-accent-foreground [&_svg]:pointer-events-none [&_svg]:shrink-0 [&_svg:not([class*='size-'])]:size-[18px]"
                    ∷ given p.class_name
                    ∷ [])),
            )
            ∷ [])
          p.attrs)
        (many ((p.children) ∷ (icon "chevronRight" (("className", str "ml-auto") ∷ [])) ∷ []))

  unfoldable pub context_menu_sub_content : Props M → Node M
  context_menu_sub_content p =
      part L (foreign "ContextMenu.SubContent") "context-menu-sub-content" []
        (lit
            "z-50 w-max min-w-48 max-w-[calc(100vw-2rem)] origin-(--radix-context-menu-content-transform-origin) overflow-hidden rounded-xs bg-popover p-1 text-popover-foreground shadow-2xl shadow-(color:--shadow-surface) duration-100 data-[side=bottom]:slide-in-from-top-2 data-[side=left]:slide-in-from-right-2 data-[side=right]:slide-in-from-left-2 data-[side=top]:slide-in-from-bottom-2 data-open:animate-in data-open:fade-in-0 data-open:zoom-in-95 data-closed:animate-out data-closed:fade-out-0 data-closed:zoom-out-95"
          ∷ [])
        p

  unfoldable pub context_menu_checkbox_item : Option (Value M) → Option Bool → Props M → Node M
  context_menu_checkbox_item checked inset p =
      element (foreign "ContextMenu.CheckboxItem")
        (spread
          (("data-slot", str "context-menu-checkbox-item")
            ∷ ("data-inset", opt_bool inset)
            ∷ (
              "className",
              str (
                  cn L (
                    lit
                      "relative flex cursor-default items-center gap-1.5 rounded-xs py-1 pr-8 pl-1.5 text-lg outline-hidden select-none focus:bg-accent focus:text-accent-foreground data-inset:pl-7 data-disabled:pointer-events-none data-disabled:opacity-50 [&_svg]:pointer-events-none [&_svg]:shrink-0 [&_svg:not([class*='size-'])]:size-[18px]"
                    ∷ given p.class_name
                    ∷ [])),
            )
            ∷ ("checked", opt_value checked)
            ∷ [])
          p.attrs)
        (many (
          (element (host "span") (("className", str "pointer-events-none absolute right-2") ∷ [])
            (element (foreign "ContextMenu.ItemIndicator") ([]) (icon "confirm" ([]))))
          ∷ (p.children)
          ∷ []))

  unfoldable pub context_menu_radio_item : Option Bool → Props M → Node M
  context_menu_radio_item inset p =
      element (foreign "ContextMenu.RadioItem")
        (spread
          (("data-slot", str "context-menu-radio-item")
            ∷ ("data-inset", opt_bool inset)
            ∷ (
              "className",
              str (
                  cn L (
                    lit
                      "relative flex cursor-default items-center gap-1.5 rounded-xs py-1 pr-8 pl-1.5 text-lg outline-hidden select-none focus:bg-accent focus:text-accent-foreground data-inset:pl-7 data-disabled:pointer-events-none data-disabled:opacity-50 [&_svg]:pointer-events-none [&_svg]:shrink-0 [&_svg:not([class*='size-'])]:size-[18px]"
                    ∷ given p.class_name
                    ∷ [])),
            )
            ∷ [])
          p.attrs)
        (many (
          (element (host "span") (("className", str "pointer-events-none absolute right-2") ∷ [])
            (element (foreign "ContextMenu.ItemIndicator") ([]) (icon "confirm" ([]))))
          ∷ (p.children)
          ∷ []))

  unfoldable pub context_menu_label : Option Bool → Props M → Node M
  context_menu_label inset p =
      part L (foreign "ContextMenu.Label") "context-menu-label"
        (("data-inset", opt_bool inset) ∷ [])
        (lit "px-1.5 py-1 text-xs font-medium text-muted-foreground data-inset:pl-7" ∷ []) p

  unfoldable pub context_menu_separator : Props M → Node M
  context_menu_separator p =
      part L (foreign "ContextMenu.Separator") "context-menu-separator" []
        (lit "-mx-1 my-1 h-px bg-border" ∷ []) p

  unfoldable pub context_menu_shortcut : Props M → Node M
  context_menu_shortcut p =
      part L (host "span") "context-menu-shortcut" []
        (lit
            "ml-auto text-xs tracking-widest text-muted-foreground group-focus/context-menu-item:text-accent-foreground"
          ∷ [])
        p
