-- ===== src/Ui/Select.antt =====
-- The components of app/frontend/components/ui/select/select.tsx.
use opanel.Common.{String, true, Option, none, [], ◌∷◌, if◌then◌else◌, or_else, ◌===◌}
use opanel.Dom.{Props, Node, nothing, element, host, foreign, str, bool, many, spread, all_attrs}
use opanel.Ui.Cn.{ClassLibs, cn, lit, falsy, given}
use opanel.Ui.Part.{part}
use opanel.Ui.Icons.{icon}

module _ {M : Type 0} (L : ClassLibs) where
  unfoldable pub select : Props M → Node M
  select p =
      element (foreign "Select.Root") (spread (("data-slot", str "select") ∷ []) (all_attrs p))
        p.children

  unfoldable pub select_group : Props M → Node M
  select_group p = part L (foreign "Select.Group") "select-group" [] (lit "scroll-my-1 p-1" ∷ []) p

  unfoldable pub select_value : Props M → Node M
  select_value p =
      element (foreign "Select.Value")
        (spread (("data-slot", str "select-value") ∷ []) (all_attrs p)) p.children

  unfoldable pub select_trigger : Option String → Props M → Node M
  select_trigger size p =
      element (foreign "Select.Trigger")
        (spread
          (("data-slot", str "select-trigger")
            ∷ ("data-size", str (or_else size "default"))
            ∷ (
              "className",
              str (
                  cn L (
                    lit
                      "flex w-full items-center justify-between gap-1.5 rounded-md border border-input bg-transparent py-4 pr-4 pl-6 text-lg whitespace-nowrap transition-colors outline-none select-none hover:border-primary/50 hover:bg-primary/5 focus-visible:border-ring focus-visible:ring-3 focus-visible:ring-ring/50 disabled:cursor-not-allowed disabled:opacity-50 aria-invalid:border-destructive aria-invalid:ring-3 aria-invalid:ring-destructive/20 data-placeholder:text-muted-foreground data-[size=sm]:h-7 *:data-[slot=select-value]:line-clamp-1 *:data-[slot=select-value]:flex *:data-[slot=select-value]:items-center *:data-[slot=select-value]:gap-1.5 dark:bg-input/30 dark:hover:bg-primary/10 dark:aria-invalid:border-destructive/50 dark:aria-invalid:ring-destructive/40 [&_svg]:pointer-events-none [&_svg]:shrink-0 [&_svg:not([class*='size-'])]:size-[18px]"
                    ∷ given p.class_name
                    ∷ [])),
            )
            ∷ [])
          p.attrs)
        (many (
          (p.children)
          ∷ (element (foreign "Select.Icon") (("asChild", bool true) ∷ []) (
              icon "chevronDown"
                (("className", str "pointer-events-none size-[18px] text-muted-foreground") ∷ [])))
          ∷ []))

  unfoldable pub select_label : Props M → Node M
  select_label p =
      part L (foreign "Select.Label") "select-label" []
        (lit "px-1.5 py-1 text-xs text-muted-foreground" ∷ []) p

  unfoldable pub select_item : Props M → Node M
  select_item p =
      element (foreign "Select.Item")
        (spread
          (("data-slot", str "select-item")
            ∷ (
              "className",
              str (
                  cn L (
                    lit
                      "relative flex w-full cursor-default items-center gap-1.5 rounded-xs py-1.5 pr-8 pl-1.5 text-lg outline-hidden select-none focus:bg-primary/10 focus:text-primary focus:**:text-primary data-[state=checked]:bg-primary/15 data-[state=checked]:text-primary data-disabled:pointer-events-none data-disabled:opacity-50 [&_svg]:pointer-events-none [&_svg]:shrink-0 [&_svg:not([class*='size-'])]:size-[18px] *:[span]:last:flex *:[span]:last:items-center *:[span]:last:gap-2"
                    ∷ given p.class_name
                    ∷ [])),
            )
            ∷ [])
          p.attrs)
        (many (
          (element (host "span")
            ((
              "className",
              str "pointer-events-none absolute right-2 flex size-4 items-center justify-center",
            )
              ∷ [])
            (element (foreign "Select.ItemIndicator") ([])
              (icon "confirm" (("className", str "pointer-events-none") ∷ []))))
          ∷ (element (foreign "Select.ItemText") ([]) p.children)
          ∷ []))

  unfoldable pub select_separator : Props M → Node M
  select_separator p =
      part L (foreign "Select.Separator") "select-separator" []
        (lit "pointer-events-none -mx-1 my-1 h-px bg-border" ∷ []) p

  unfoldable pub select_scroll_up_button : Props M → Node M
  select_scroll_up_button p =
      element (foreign "Select.ScrollUpButton")
        (spread
          (("data-slot", str "select-scroll-up-button")
            ∷ (
              "className",
              str (
                  cn L (
                    lit
                      "z-10 flex cursor-default items-center justify-center bg-popover py-1 [&_svg:not([class*='size-'])]:size-[18px]"
                    ∷ given p.class_name
                    ∷ [])),
            )
            ∷ [])
          p.attrs)
        (icon "chevronUp" ([]))

  unfoldable pub select_scroll_down_button : Props M → Node M
  select_scroll_down_button p =
      element (foreign "Select.ScrollDownButton")
        (spread
          (("data-slot", str "select-scroll-down-button")
            ∷ (
              "className",
              str (
                  cn L (
                    lit
                      "z-10 flex cursor-default items-center justify-center bg-popover py-1 [&_svg:not([class*='size-'])]:size-[18px]"
                    ∷ given p.class_name
                    ∷ [])),
            )
            ∷ [])
          p.attrs)
        (icon "chevronDown" ([]))

  unfoldable pub select_content : Option String → Option String → Props M → Node M
  unfolding select_scroll_down_button select_scroll_up_button
  select_content position align p = element (foreign "Select.Portal") ([]) (
      element (foreign "Select.Content")
        (spread
          (("data-slot", str "select-content")
            ∷ ("data-align-trigger", bool ((or_else position "item-aligned") === "item-aligned"))
            ∷ (
              "className",
              str (
                  cn L (
                    lit
                      "relative z-50 max-h-(--radix-select-content-available-height) min-w-36 origin-(--radix-select-content-transform-origin) overflow-x-hidden overflow-y-auto rounded-xs bg-popover text-popover-foreground shadow-2xl shadow-(color:--shadow-surface) ring-1 ring-foreground/10 duration-100 data-[align-trigger=true]:animate-none data-[side=bottom]:slide-in-from-top-2 data-[side=left]:slide-in-from-right-2 data-[side=right]:slide-in-from-left-2 data-[side=top]:slide-in-from-bottom-2 data-open:animate-in data-open:fade-in-0 data-open:zoom-in-95 data-closed:animate-out data-closed:fade-out-0 data-closed:zoom-out-95"
                    ∷ (if ((or_else position "item-aligned") === "popper")
                        then lit
                            "data-[side=bottom]:translate-y-1 data-[side=left]:-translate-x-1 data-[side=right]:translate-x-1 data-[side=top]:-translate-y-1"
                        else falsy)
                    ∷ given p.class_name
                    ∷ [])),
            )
            ∷ ("position", str (or_else position "item-aligned"))
            ∷ ("align", str (or_else align "center"))
            ∷ [])
          p.attrs)
        (many (
          (select_scroll_up_button (record { class_name = none; attrs = []; children = nothing }))
          ∷ (element (foreign "Select.Viewport")
              (("data-position", str (or_else position "item-aligned"))
                ∷ (
                  "className",
                  str (
                      cn L (
                        lit
                          "data-[position=popper]:h-(--radix-select-trigger-height) data-[position=popper]:w-full data-[position=popper]:min-w-(--radix-select-trigger-width)"
                        ∷ (if ((or_else position "item-aligned") === "popper")
                            then lit ""
                            else falsy)
                        ∷ [])),
                )
                ∷ [])
              p.children)
          ∷ (select_scroll_down_button
              (record { class_name = none; attrs = []; children = nothing }))
          ∷ [])))
