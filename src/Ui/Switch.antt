-- ===== src/Ui/Switch.antt =====
-- The components of app/frontend/components/ui/switch/switch.tsx.
use opanel.Common.{String, Option, [], ◌∷◌, or_else}
use opanel.Dom.{Props, Node, nothing, element, foreign, str, spread}
use opanel.Ui.Cn.{ClassLibs, cn, lit, given}

module _ {M : Type 0} (L : ClassLibs) where
  unfoldable pub switch : Option String → Props M → Node M
  switch size p =
      element (foreign "Switch.Root")
        (spread
          (("data-slot", str "switch")
            ∷ ("data-size", str (or_else size "default"))
            ∷ (
              "className",
              str (
                  cn L (
                    lit
                      "peer group/switch relative inline-flex shrink-0 items-center rounded-full border border-transparent transition-all outline-none group-has-[:focus-visible]/field-label:border-transparent group-has-[:focus-visible]/field-label:ring-0 after:absolute after:-inset-x-3 after:-inset-y-2 focus-visible:border-ring focus-visible:ring-3 focus-visible:ring-ring/50 aria-invalid:border-destructive aria-invalid:ring-3 aria-invalid:ring-destructive/20 data-[size=default]:h-[18.4px] data-[size=default]:w-[32px] data-[size=sm]:h-[14px] data-[size=sm]:w-[24px] dark:aria-invalid:border-destructive/50 dark:aria-invalid:ring-destructive/40 data-checked:bg-primary data-unchecked:bg-input dark:data-unchecked:bg-input/80 data-disabled:cursor-not-allowed data-disabled:opacity-50"
                    ∷ given p.class_name
                    ∷ [])),
            )
            ∷ [])
          p.attrs)
        (element (foreign "Switch.Thumb")
          (("data-slot", str "switch-thumb")
            ∷ (
              "className",
              str
                  "pointer-events-none block rounded-full bg-background ring-0 transition-transform group-data-[size=default]/switch:size-4 group-data-[size=sm]/switch:size-3 group-data-[size=default]/switch:data-checked:translate-x-[calc(100%-2px)] group-data-[size=sm]/switch:data-checked:translate-x-[calc(100%-2px)] dark:data-checked:bg-primary-foreground group-data-[size=default]/switch:data-unchecked:translate-x-0 group-data-[size=sm]/switch:data-unchecked:translate-x-0 dark:data-unchecked:bg-foreground",
            )
            ∷ [])
          nothing)
