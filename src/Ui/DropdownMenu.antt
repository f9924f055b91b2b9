-- ===== src/Ui/DropdownMenu.antt =====
-- The components of app/frontend/components/ui/dropdown-menu/dropdown-menu.tsx.
use opanel.Common.{String, Bool, Option, [], ◌∷◌, ℕ, or_else}
use opanel.Dom.{
  Props, Node, element, host, foreign, str, num, many, spread, all_attrs, opt_bool, opt_value,
  Value,
}
use opanel.Ui.Cn.{ClassLibs, cn, lit, given}
use opanel.Ui.Part.{part}
use opanel.Ui.Icons.{icon}

module _ {M : Type 0} (L : ClassLibs) where
  unfoldable pub dropdown_menu : Props M → Node M
  dropdown_menu p =
      element (foreign "DropdownMenu.Root")
        (spread (("data-slot", str "dropdown-menu") ∷ []) (all_attrs p)) p.children

  unfoldable pub dropdown_menu_portal : Props M → Node M
  dropdown_menu_portal p =
      element (foreign "DropdownMenu.Portal")
        (spread (("data-slot", str "dropdown-menu-portal") ∷ []) (all_attrs p)) p.children

  unfoldable pub dropdown_menu_trigger : Props M → Node M
  dropdown_menu_trigger p =
      element (foreign "DropdownMenu.Trigger")
        (spread (("data-slot", str "dropdown-menu-trigger") ∷ []) (all_attrs p)) p.children

  unfoldable pub dropdown_menu_content : Option String → Option ℕ → Props M → Node M
  dropdown_menu_content align side_offset p = element (foreign "DropdownMenu.Portal") ([]) (
      part L (foreign "DropdownMenu.Content") "dropdown-menu-content"
        (("sideOffset", num (or_else side_offset 4)) ∷ ("align", str (or_else align "start")) ∷ [])
        (lit
            "z-50 max-h-(--radix-dropdown-menu-content-available-height) min-w-(--radix-dropdown-menu-trigger-width) origin-(--radix-dropdown-menu-content-transform-origin) overflow-x-hidden overflow-y-auto rounded-md border-[0.5px] border-border bg-popover p-1.5 text-popover-foreground shadow-lg shadow-[color:color-mix(in_srgb,var(--shadow-surface),transparent_45%)] duration-100 data-[side=bottom]:slide-in-from-top-2 data-[side=left]:slide-in-from-right-2 data-[side=right]:slide-in-from-left-2 data-[side=top]:slide-in-from-bottom-2 data-[state=closed]:overflow-hidden data-open:animate-in data-open:fade-in-0 data-open:zoom-in-95 data-closed:animate-out data-closed:fade-out-0 data-closed:zoom-out-95"
          ∷ [])
        p)

  unfoldable pub dropdown_menu_group : Props M → Node M
  dropdown_menu_group p =
      element (foreign "DropdownMenu.Group")
        (spread (("data-slot", str "dropdown-menu-group") ∷ []) (all_attrs p)) p.children

  unfoldable pub dropdown_menu_item : Option Bool → Option String → Props M → Node M
  dropdown_menu_item inset variant p =
      part L (foreign "DropdownMenu.Item") "dropdown-menu-item"
        (("data-inset", opt_bool inset) ∷ ("data-variant", str (or_else variant "default")) ∷ [])
        (lit
            "group/dropdown-menu-item relative flex cursor-default items-center gap-1.5 rounded-sm px-2 py-1.5 text-lg outline-hidden select-none focus:bg-accent focus:text-accent-foreground not-data-[variant=destructive]:focus:**:text-accent-foreground data-inset:pl-7 data-[variant=destructive]:text-destructive data-[variant=destructive]:focus:bg-destructive/10 data-[variant=destructive]:focus:text-destructive dark:data-[variant=destructive]:focus:bg-destructive/20 data-disabled:pointer-events-none data-disabled:opacity-50 [&_svg]:pointer-events-none [&_svg]:shrink-0 [&_svg:not([class*='size-'])]:size-[18px] data-[variant=destructive]:*:[svg]:text-destructive"
          ∷ [])
        p

  unfoldable pub dropdown_menu_checkbox_item : Option (Value M) → Option Bool → Props M → Node M
  dropdown_menu_checkbox_item checked inset p =
      element (foreign "DropdownMenu.CheckboxItem")
        (spread
          (("data-slot", str "dropdown-menu-checkbox-item")
            ∷ ("data-inset", opt_bool inset)
            ∷ (
              "className",
              str (
                  cn L (
                    lit
                      "relative flex cursor-default items-center gap-1.5 rounded-sm py-1.5 pr-8 pl-2 text-lg outline-hidden select-none focus:bg-accent focus:text-accent-foreground focus:**:text-accent-foreground data-inset:pl-7 data-disabled:pointer-events-none data-disabled:opacity-50 [&_svg]:pointer-events-none [&_svg]:shrink-0 [&_svg:not([class*='size-'])]:size-[18px]"
                    ∷ given p.class_name
                    ∷ [])),
            )
            ∷ ("checked", opt_value checked)
            ∷ [])
          p.attrs)
        (many (
          (element (host "span")
            ((
              "className",
              str "pointer-events-none absolute right-2 flex items-center justify-center",
            )
              ∷ ("data-slot", str "dropdown-menu-checkbox-item-indicator")
              ∷ [])
            (element (foreign "DropdownMenu.ItemIndicator") ([]) (icon "confirm" ([]))))
          ∷ (p.children)
          ∷ []))

  unfoldable pub dropdown_menu_radio_group : Props M → Node M
  dropdown_menu_radio_group p =
      element (foreign "DropdownMenu.RadioGroup")
        (spread (("data-slot", str "dropdown-menu-radio-group") ∷ []) (all_attrs p)) p.children

  unfoldable pub dropdown_menu_radio_item : Option Bool → Props M → Node M
  dropdown_menu_radio_item inset p =
      element (foreign "DropdownMenu.RadioItem")
        (spread
          (("data-slot", str "dropdown-menu-radio-item")
            ∷ ("data-inset", opt_bool inset)
            ∷ (
              "className",
              str (
                  cn L (
                    lit
                      "relative flex cursor-default items-center gap-1.5 rounded-sm py-1.5 pr-8 pl-2 text-lg outline-hidden select-none focus:bg-accent focus:text-accent-foreground focus:**:text-accent-foreground data-inset:pl-7 data-disabled:pointer-events-none data-disabled:opacity-50 [&_svg]:pointer-events-none [&_svg]:shrink-0 [&_svg:not([class*='size-'])]:size-[18px]"
                    ∷ given p.class_name
                    ∷ [])),
            )
            ∷ [])
          p.attrs)
        (many (
          (element (host "span")
            ((
              "className",
              str "pointer-events-none absolute right-2 flex items-center justify-center",
            )
              ∷ ("data-slot", str "dropdown-menu-radio-item-indicator")
              ∷ [])
            (element (foreign "DropdownMenu.ItemIndicator") ([]) (icon "confirm" ([]))))
          ∷ (p.children)
          ∷ []))

  unfoldable pub dropdown_menu_label : Option Bool → Props M → Node M
  dropdown_menu_label inset p =
      part L (foreign "DropdownMenu.Label") "dropdown-menu-label"
        (("data-inset", opt_bool inset) ∷ [])
        (lit "px-2 py-1.5 text-lg font-extralight text-muted-foreground data-inset:pl-7" ∷ []) p

  unfoldable pub dropdown_menu_separator : Props M → Node M
  dropdown_menu_separator p =
      part L (foreign "DropdownMenu.Separator") "dropdown-menu-separator" []
        (lit "-mx-1.5 my-1.5 h-px bg-border" ∷ []) p

  unfoldable pub dropdown_menu_shortcut : Props M → Node M
  dropdown_menu_shortcut p =
      part L (host "span") "dropdown-menu-shortcut" []
        (lit
            "ml-auto text-xs tracking-widest text-muted-foreground group-focus/dropdown-menu-item:text-accent-foreground"
          ∷ [])
        p

  unfoldable pub dropdown_menu_sub : Props M → Node M
  dropdown_menu_sub p =
      element (foreign "DropdownMenu.Sub")
        (spread (("data-slot", str "dropdown-menu-sub") ∷ []) (all_attrs p)) p.children

  unfoldable pub dropdown_menu_sub_trigger : Option Bool → Props M → Node M
  dropdown_menu_sub_trigger inset p =
      element (foreign "DropdownMenu.SubTrigger")
        (spread
          (("data-slot", str "dropdown-menu-sub-trigger")
            ∷ ("data-inset", opt_bool inset)
            ∷ (
              "className",
              str (
                  cn L (
                    lit
                      "flex cursor-default items-center gap-1.5 rounded-sm px-2 py-1.5 text-lg outline-hidden select-none focus:bg-accent focus:text-accent-foreground not-data-[variant=destructive]:focus:**:text-accent-foreground data-inset:pl-7 data-open:bg-accent data-open:text-accent-foreground [&_svg]:pointer-events-none [&_svg]:shrink-0 [&_svg:not([class*='size-'])]:size-[18px]"
                    ∷ given p.class_name
                    ∷ [])),
            )
            ∷ [])
          p.attrs)
        (many ((p.children) ∷ (icon "chevronRight" (("className", str "ml-auto") ∷ [])) ∷ []))

  unfoldable pub dropdown_menu_sub_content : Props M → Node M
  dropdown_menu_sub_content p =
      part L (foreign "DropdownMenu.SubContent") "dropdown-menu-sub-content" []
        (lit
            "z-50 min-w-[96px] origin-(--radix-dropdown-menu-content-transform-origin) overflow-hidden rounded-md border-[0.5px] border-border bg-popover p-1.5 text-popover-foreground shadow-lg shadow-[color:color-mix(in_srgb,var(--shadow-surface),transparent_45%)] duration-100 data-[side=bottom]:slide-in-from-top-2 data-[side=left]:slide-in-from-right-2 data-[side=right]:slide-in-from-left-2 data-[side=top]:slide-in-from-bottom-2 data-open:animate-in data-open:fade-in-0 data-open:zoom-in-95 data-closed:animate-out data-closed:fade-out-0 data-closed:zoom-out-95"
          ∷ [])
        p
