-- ===== src/Ui/Button.antt =====
-- The components of app/frontend/components/ui/button/button.tsx.
use opanel.Common.{String, Bool, false, Option, some, [], ◌∷◌, if◌then◌else◌, or_else}
use opanel.Dom.{Props, Node, host, foreign, str, jsx}
use opanel.Ui.Cn.{ClassLibs, Cva, cn, lit}

abbrev pub button_variants : Cva
button_variants = record {
  base =
      "group/button inline-flex shrink-0 items-center justify-center rounded-md border border-transparent bg-clip-padding text-lg font-medium whitespace-nowrap transition-all outline-none select-none focus-visible:border-ring focus-visible:ring-3 focus-visible:ring-ring/50 active:not-aria-[haspopup]:translate-y-px disabled:pointer-events-none disabled:opacity-50 aria-invalid:border-destructive aria-invalid:ring-3 aria-invalid:ring-destructive/20 dark:aria-invalid:border-destructive/50 dark:aria-invalid:ring-destructive/40 [&_svg]:pointer-events-none [&_svg]:shrink-0 [&_svg:not([class*='size-'])]:size-[18px]";
  variants =
      (
        "variant",
        ("default", "bg-primary text-primary-foreground hover:bg-primary/80")
            ∷ (
              "outline",
              "border-border bg-background hover:bg-muted hover:text-foreground aria-expanded:bg-muted aria-expanded:text-foreground dark:border-input dark:bg-input/30 dark:hover:bg-input/50",
            )
            ∷ (
              "secondary",
              "bg-secondary text-secondary-foreground hover:bg-[color-mix(in_oklch,var(--secondary),var(--foreground)_5%)] aria-expanded:bg-secondary aria-expanded:text-secondary-foreground",
            )
            ∷ (
              "success",
              "bg-success text-success-foreground hover:bg-success/80 focus-visible:border-success/40 focus-visible:ring-success/20 dark:hover:bg-success/90 dark:focus-visible:ring-success/40",
            )
            ∷ (
              "ghost",
              "hover:bg-muted hover:text-foreground aria-expanded:bg-muted aria-expanded:text-foreground dark:hover:bg-muted/50",
            )
            ∷ (
              "destructive",
              "bg-destructive/10 text-destructive hover:bg-destructive/20 focus-visible:border-destructive/40 focus-visible:ring-destructive/20 dark:bg-destructive/20 dark:hover:bg-destructive/30 dark:focus-visible:ring-destructive/40",
            )
            ∷ ("link", "text-primary underline-offset-4 hover:underline")
            ∷ [],
      )
      ∷ (
        "size",
        (
          "default",
          "gap-1.5 px-6 py-4 has-data-[icon=inline-end]:pr-5 has-data-[icon=inline-start]:pl-5",
        )
            ∷ (
              "xs",
              "h-6 gap-1 px-2 text-xs has-data-[icon=inline-end]:pr-1.5 has-data-[icon=inline-start]:pl-1.5 [&_svg:not([class*='size-'])]:size-3",
            )
            ∷ (
              "sm",
              "h-7 gap-1 px-2.5 text-[0.8rem] has-data-[icon=inline-end]:pr-1.5 has-data-[icon=inline-start]:pl-1.5 [&_svg:not([class*='size-'])]:size-3.5",
            )
            ∷ (
              "lg",
              "gap-2 px-8 py-5 text-xl has-data-[icon=inline-end]:pr-7 has-data-[icon=inline-start]:pl-7 [&_svg:not([class*='size-'])]:size-5",
            )
            ∷ ("icon", "size-8")
            ∷ ("icon-xs", "size-6 [&_svg:not([class*='size-'])]:size-3")
            ∷ ("icon-sm", "size-7")
            ∷ ("icon-lg", "size-9")
            ∷ [],
      )
      ∷ [];
  default_variants = ("variant", "default") ∷ ("size", "default") ∷ [];
}

module _ {M : Type 0} (L : ClassLibs) where
  unfoldable pub button : Option String → Option String → Option Bool → Props M → Node M
  button variant size as_child p =
      jsx (if (or_else as_child false) then foreign "Slot.Root" else host "button")
        (("data-slot", str "button")
          ∷ ("data-variant", str (or_else variant "default"))
          ∷ ("data-size", str (or_else size "default"))
          ∷ (
            "className",
            str (
                cn L (
                  lit (
                    L.cva button_variants
                      (("variant", some (or_else variant "default"))
                        ∷ ("size", some (or_else size "default"))
                        ∷ [])
                      p.class_name)
                  ∷ [])),
          )
          ∷ [])
        p
