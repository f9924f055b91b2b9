-- ===== src/Ui/Tooltip.antt =====
-- The components of app/frontend/components/ui/tooltip/tooltip.tsx.
use opanel.Common.{Option, [], ◌∷◌, ℕ, or_else}
use opanel.Dom.{Props, Node, nothing, element, foreign, str, num, many, spread, all_attrs}
use opanel.Ui.Cn.{ClassLibs, cn, lit, given}

module _ {M : Type 0} (L : ClassLibs) where
  unfoldable pub tooltip_provider : Option ℕ → Props M → Node M
  tooltip_provider delay_duration p =
      element (foreign "Tooltip.Provider")
        (spread
          (("data-slot", str "tooltip-provider")
            ∷ ("delayDuration", num (or_else delay_duration 0))
            ∷ [])
          (all_attrs p))
        p.children

  unfoldable pub tooltip : Props M → Node M
  tooltip p =
      element (foreign "Tooltip.Root") (spread (("data-slot", str "tooltip") ∷ []) (all_attrs p))
        p.children

  unfoldable pub tooltip_trigger : Props M → Node M
  tooltip_trigger p =
      element (foreign "Tooltip.Trigger")
        (spread (("data-slot", str "tooltip-trigger") ∷ []) (all_attrs p)) p.children

  unfoldable pub tooltip_content : Option ℕ → Props M → Node M
  tooltip_content side_offset p = element (foreign "Tooltip.Portal") ([]) (
      element (foreign "Tooltip.Content")
        (spread
          (("data-slot", str "tooltip-content")
            ∷ ("sideOffset", num (or_else side_offset 0))
            ∷ (
              "className",
              str (
                  cn L (
                    lit
                      "z-50 inline-flex w-fit max-w-xs origin-(--radix-tooltip-content-transform-origin) items-center gap-1.5 rounded-xs bg-foreground px-3 py-1.5 text-xs text-background has-data-[slot=kbd]:pr-1.5 data-[side=bottom]:slide-in-from-top-2 data-[side=left]:slide-in-from-right-2 data-[side=right]:slide-in-from-left-2 data-[side=top]:slide-in-from-bottom-2 **:data-[slot=kbd]:relative **:data-[slot=kbd]:isolate **:data-[slot=kbd]:z-50 **:data-[slot=kbd]:rounded-xs data-[state=delayed-open]:animate-in data-[state=delayed-open]:fade-in-0 data-[state=delayed-open]:zoom-in-95 data-open:animate-in data-open:fade-in-0 data-open:zoom-in-95 data-closed:animate-out data-closed:fade-out-0 data-closed:zoom-out-95"
                    ∷ given p.class_name
                    ∷ [])),
            )
            ∷ [])
          p.attrs)
        (many (
          (p.children)
          ∷ (element (foreign "Tooltip.Arrow")
              ((
                "className",
                str
                    "z-50 size-2.5 translate-y-[calc(-50%_-_2px)] rotate-45 rounded-xs bg-foreground fill-foreground",
              )
                ∷ [])
              nothing)
          ∷ [])))
