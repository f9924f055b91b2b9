-- ===== src/Ui/RadioGroup.antt =====
-- The components of app/frontend/components/ui/radio-group/radio-group.tsx.
pub mod Choice
use opanel.Common.{[], ◌∷◌}
use opanel.Dom.{Props, Node, nothing, element, host, foreign, str, spread}
use opanel.Ui.Cn.{ClassLibs, cn, lit, given}
use opanel.Ui.Part.{part}

module _ {M : Type 0} (L : ClassLibs) where
  unfoldable pub radio_group : Props M → Node M
  radio_group p =
      part L (foreign "RadioGroup.Root") "radio-group" [] (lit "grid w-full gap-2" ∷ []) p

  unfoldable pub radio_group_item : Props M → Node M
  radio_group_item p =
      element (foreign "RadioGroup.Item")
        (spread
          (("data-slot", str "radio-group-item")
            ∷ (
              "className",
              str (
                  cn L (
                    lit
                      "group/radio-group-item peer relative flex aspect-square size-[18px] shrink-0 rounded-full border border-input outline-none group-has-[:focus-visible]/field-label:ring-0 group-has-[:focus-visible]/field-label:not-data-checked:border-input after:absolute after:-inset-x-3 after:-inset-y-2 focus-visible:border-ring focus-visible:ring-3 focus-visible:ring-ring/50 disabled:cursor-not-allowed disabled:opacity-50 aria-invalid:border-destructive aria-invalid:ring-3 aria-invalid:ring-destructive/20 aria-invalid:aria-checked:border-primary dark:bg-input/30 dark:aria-invalid:border-destructive/50 dark:aria-invalid:ring-destructive/40 data-checked:border-primary data-checked:bg-primary data-checked:text-primary-foreground group-has-[:focus-visible]/field-label:data-checked:border-primary dark:data-checked:bg-primary"
                    ∷ given p.class_name
                    ∷ [])),
            )
            ∷ [])
          p.attrs)
        (element (foreign "RadioGroup.Indicator")
          (("data-slot", str "radio-group-indicator")
            ∷ ("className", str "flex size-[18px] items-center justify-center")
            ∷ [])
          (element (host "span")
            ((
              "className",
              str
                  "absolute top-1/2 left-1/2 size-2.5 -translate-x-1/2 -translate-y-1/2 rounded-full bg-primary-foreground",
            )
              ∷ [])
            nothing))
