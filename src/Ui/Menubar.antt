-- ===== src/Ui/Menubar.antt =====
-- The components of app/frontend/components/ui/menubar/menubar.tsx.
use opanel.Common.{String, Bool, Option, none, [], ◌∷◌, ℕ, or_else}
use opanel.Dom.{
  Props, Node, element, host, foreign, str, num, minus, many, spread, all_attrs, opt_bool,
  opt_value, Value,
}
use opanel.Ui.Cn.{ClassLibs, cn, lit, given}
use opanel.Ui.Part.{part}
use opanel.Ui.Icons.{icon}

module _ {M : Type 0} (L : ClassLibs) where
  unfoldable pub menubar : Props M → Node M
  menubar p =
      part L (foreign "Menubar.Root") "menubar" []
        (lit "flex min-h-12 items-center gap-1 rounded-xs border p-1" ∷ []) p

  unfoldable pub menubar_menu : Props M → Node M
  menubar_menu p =
      element (foreign "Menubar.Menu")
        (spread (("data-slot", str "menubar-menu") ∷ []) (all_attrs p)) p.children

  unfoldable pub menubar_group : Props M → Node M
  menubar_group p =
      element (foreign "Menubar.Group")
        (spread (("data-slot", str "menubar-group") ∷ []) (all_attrs p)) p.children

  unfoldable pub menubar_portal : Props M → Node M
  menubar_portal p =
      element (foreign "Menubar.Portal")
        (spread (("data-slot", str "menubar-portal") ∷ []) (all_attrs p)) p.children

  unfoldable pub menubar_radio_group : Props M → Node M
  menubar_radio_group p =
      element (foreign "Menubar.RadioGroup")
        (spread (("data-slot", str "menubar-radio-group") ∷ []) (all_attrs p)) p.children

  unfoldable pub menubar_trigger : Props M → Node M
  menubar_trigger p =
      part L (foreign "Menubar.Trigger") "menubar-trigger" []
        (lit
            "flex items-center rounded-xs px-4 py-2.5 text-lg font-medium outline-hidden select-none hover:bg-muted aria-expanded:bg-muted"
          ∷ [])
        p

  unfoldable pub menubar_content : Option String → Option (Value M) → Option ℕ → Props M → Node M
  unfolding menubar_portal
  menubar_content align align_offset side_offset p = menubar_portal (record {
    class_name = none;
    attrs = [];
    children =
        (part L (foreign "Menubar.Content") "menubar-content"
          (("align", str (or_else align "start"))
            ∷ ("alignOffset", (or_else align_offset (minus 4)))
            ∷ ("sideOffset", num (or_else side_offset 8))
            ∷ [])
          (lit
              "z-50 min-w-44 origin-(--radix-menubar-content-transform-origin) overflow-hidden rounded-xs bg-popover p-1.5 text-popover-foreground shadow-2xl shadow-(color:--shadow-surface) duration-100 data-[side=bottom]:slide-in-from-top-2 data-[side=left]:slide-in-from-right-2 data-[side=right]:slide-in-from-left-2 data-[side=top]:slide-in-from-bottom-2 data-open:animate-in data-open:fade-in-0 data-open:zoom-in-95"
            ∷ [])
          p);
  })

  unfoldable pub menubar_item : Option Bool → Option String → Props M → Node M
  menubar_item inset variant p =
      part L (foreign "Menubar.Item") "menubar-item"
        (("data-inset", opt_bool inset) ∷ ("data-variant", str (or_else variant "default")) ∷ [])
        (lit
            "group/menubar-item relative flex cursor-default items-center gap-2 rounded-xs px-3 py-2 text-lg outline-hidden select-none focus:bg-accent focus:text-accent-foreground not-data-[variant=destructive]:focus:**:text-accent-foreground data-inset:pl-9 data-[variant=destructive]:text-destructive data-[variant=destructive]:focus:bg-destructive/10 data-[variant=destructive]:focus:text-destructive dark:data-[variant=destructive]:focus:bg-destructive/20 data-disabled:pointer-events-none data-disabled:opacity-50 [&_svg]:pointer-events-none [&_svg]:shrink-0 [&_svg:not([class*='size-'])]:size-[18px] data-[variant=destructive]:*:[svg]:text-destructive!"
          ∷ [])
        p

  unfoldable pub menubar_checkbox_item : Option (Value M) → Option Bool → Props M → Node M
  menubar_checkbox_item checked inset p =
      element (foreign "Menubar.CheckboxItem")
        (spread
          (("data-slot", str "menubar-checkbox-item")
            ∷ ("data-inset", opt_bool inset)
            ∷ (
              "className",
              str (
                  cn L (
                    lit
                      "relative flex cursor-default items-center gap-2 rounded-xs py-2 pr-3 pl-9 text-lg outline-hidden select-none focus:bg-accent focus:text-accent-foreground focus:**:text-accent-foreground data-inset:pl-9 data-disabled:pointer-events-none [&_svg]:pointer-events-none [&_svg]:shrink-0"
                    ∷ given p.class_name
                    ∷ [])),
            )
            ∷ ("checked", opt_value checked)
            ∷ [])
          p.attrs)
        (many (
          (element (host "span")
            ((
              "className",
              str
                  "pointer-events-none absolute left-3 flex size-[18px] items-center justify-center [&_svg:not([class*='size-'])]:size-[18px]",
            )
              ∷ [])
            (element (foreign "Menubar.ItemIndicator") ([]) (icon "confirm" ([]))))
          ∷ (p.children)
          ∷ []))

  unfoldable pub menubar_radio_item : Option Bool → Props M → Node M
  menubar_radio_item inset p =
      element (foreign "Menubar.RadioItem")
        (spread
          (("data-slot", str "menubar-radio-item")
            ∷ ("data-inset", opt_bool inset)
            ∷ (
              "className",
              str (
                  cn L (
                    lit
                      "relative flex cursor-default items-center gap-2 rounded-xs py-2 pr-3 pl-9 text-lg outline-hidden select-none focus:bg-accent focus:text-accent-foreground focus:**:text-accent-foreground data-inset:pl-9 data-disabled:pointer-events-none data-disabled:opacity-50 [&_svg]:pointer-events-none [&_svg]:shrink-0 [&_svg:not([class*='size-'])]:size-[18px]"
                    ∷ given p.class_name
                    ∷ [])),
            )
            ∷ [])
          p.attrs)
        (many (
          (element (host "span")
            ((
              "className",
              str
                  "pointer-events-none absolute left-3 flex size-[18px] items-center justify-center [&_svg:not([class*='size-'])]:size-[18px]",
            )
              ∷ [])
            (element (foreign "Menubar.ItemIndicator") ([]) (icon "confirm" ([]))))
          ∷ (p.children)
          ∷ []))

  unfoldable pub menubar_label : Option Bool → Props M → Node M
  menubar_label inset p =
      part L (foreign "Menubar.Label") "menubar-label" (("data-inset", opt_bool inset) ∷ [])
        (lit "px-3 py-2 text-lg font-medium data-inset:pl-9" ∷ []) p

  unfoldable pub menubar_separator : Props M → Node M
  menubar_separator p =
      part L (foreign "Menubar.Separator") "menubar-separator" []
        (lit "-mx-1.5 my-1.5 h-px bg-border" ∷ []) p

  unfoldable pub menubar_shortcut : Props M → Node M
  menubar_shortcut p =
      part L (host "span") "menubar-shortcut" []
        (lit
            "ml-auto text-xs tracking-widest text-muted-foreground group-focus/menubar-item:text-accent-foreground"
          ∷ [])
        p

  unfoldable pub menubar_sub : Props M → Node M
  menubar_sub p =
      element (foreign "Menubar.Sub") (spread (("data-slot", str "menubar-sub") ∷ []) (all_attrs p))
        p.children

  unfoldable pub menubar_sub_trigger : Option Bool → Props M → Node M
  menubar_sub_trigger inset p =
      element (foreign "Menubar.SubTrigger")
        (spread
          (("data-slot", str "menubar-sub-trigger")
            ∷ ("data-inset", opt_bool inset)
            ∷ (
              "className",
              str (
                  cn L (
                    lit
                      "flex cursor-default items-center gap-2 rounded-xs px-3 py-2 text-lg outline-none select-none focus:bg-accent focus:text-accent-foreground data-inset:pl-9 data-open:bg-accent data-open:text-accent-foreground [&_svg:not([class*='size-'])]:size-[18px]"
                    ∷ given p.class_name
                    ∷ [])),
            )
            ∷ [])
          p.attrs)
        (many (
          (p.children)
          ∷ (icon "chevronRight" (("className", str "ml-auto size-[18px]") ∷ []))
          ∷ []))

  unfoldable pub menubar_sub_content : Props M → Node M
  menubar_sub_content p =
      part L (foreign "Menubar.SubContent") "menubar-sub-content" []
        (lit
            "z-50 min-w-40 origin-(--radix-menubar-content-transform-origin) overflow-hidden rounded-xs bg-popover p-1.5 text-popover-foreground shadow-2xl shadow-(color:--shadow-surface) duration-100 data-[side=bottom]:slide-in-from-top-2 data-[side=left]:slide-in-from-right-2 data-[side=right]:slide-in-from-left-2 data-[side=top]:slide-in-from-bottom-2 data-open:animate-in data-open:fade-in-0 data-open:zoom-in-95 data-closed:animate-out data-closed:fade-out-0 data-closed:zoom-out-95"
          ∷ [])
        p
