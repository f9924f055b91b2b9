-- ===== src/Ui/Checkbox.antt =====
-- The components of app/frontend/components/ui/checkbox/checkbox.tsx.
use opanel.Common.{[], ◌∷◌}
use opanel.Dom.{Props, Node, element, foreign, str, spread}
use opanel.Ui.Cn.{ClassLibs, cn, lit, given}
use opanel.Ui.Icons.{icon}

module _ {M : Type 0} (L : ClassLibs) where
  unfoldable pub checkbox : Props M → Node M
  checkbox p =
      element (foreign "Checkbox.Root")
        (spread
          (("data-slot", str "checkbox")
            ∷ (
              "className",
              str (
                  cn L (
                    lit
                      "peer relative flex size-[18px] shrink-0 items-center justify-center rounded-none border border-input transition-colors outline-none group-has-disabled/field:opacity-50 group-has-[:focus-visible]/field-label:ring-0 group-has-[:focus-visible]/field-label:not-data-checked:border-input after:absolute after:-inset-x-3 after:-inset-y-2 focus-visible:border-ring focus-visible:ring-3 focus-visible:ring-ring/50 disabled:cursor-not-allowed disabled:opacity-50 aria-invalid:border-destructive aria-invalid:ring-3 aria-invalid:ring-destructive/20 aria-invalid:aria-checked:border-primary dark:bg-input/30 dark:aria-invalid:border-destructive/50 dark:aria-invalid:ring-destructive/40 data-checked:border-primary data-checked:bg-primary data-checked:text-primary-foreground group-has-[:focus-visible]/field-label:data-checked:border-primary dark:data-checked:bg-primary"
                    ∷ given p.class_name
                    ∷ [])),
            )
            ∷ [])
          p.attrs)
        (element (foreign "Checkbox.Indicator")
          (("data-slot", str "checkbox-indicator")
            ∷ (
              "className",
              str "grid place-content-center text-current transition-none [&>svg]:size-[18px]",
            )
            ∷ [])
          (icon "confirm" ([])))
