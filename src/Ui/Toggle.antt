-- ===== src/Ui/Toggle.antt =====
-- The components of app/frontend/components/ui/toggle/toggle.tsx.
use opanel.Common.{String, Option, some, [], ◌∷◌, or_else}
use opanel.Dom.{Props, Node, foreign, str, jsx}
use opanel.Ui.Cn.{ClassLibs, Cva, cn, lit}

abbrev pub toggle_variants : Cva
toggle_variants = record {
  base =
      "group/toggle inline-flex items-center justify-center gap-1 rounded-xs text-lg font-medium whitespace-nowrap transition-all outline-none hover:bg-muted hover:text-foreground focus-visible:border-ring focus-visible:ring-3 focus-visible:ring-ring/50 disabled:pointer-events-none disabled:opacity-50 aria-invalid:border-destructive aria-invalid:ring-destructive/20 data-[state=on]:border-primary data-[state=on]:bg-primary data-[state=on]:text-primary-foreground data-[state=on]:hover:bg-primary/90 data-[state=on]:hover:text-primary-foreground dark:aria-invalid:ring-destructive/40 [&_svg]:pointer-events-none [&_svg]:shrink-0 [&_svg:not([class*='size-'])]:size-[18px]";
  variants =
      (
        "variant",
        ("default", "bg-transparent")
            ∷ ("outline", "border border-input bg-transparent hover:bg-muted")
            ∷ [],
      )
      ∷ (
        "size",
        (
          "default",
          "h-8 min-w-8 px-2.5 has-data-[icon=inline-end]:pr-2 has-data-[icon=inline-start]:pl-2",
        )
            ∷ (
              "sm",
              "h-7 min-w-7 rounded-xs px-2.5 text-[0.8rem] has-data-[icon=inline-end]:pr-1.5 has-data-[icon=inline-start]:pl-1.5 [&_svg:not([class*='size-'])]:size-3.5",
            )
            ∷ (
              "lg",
              "h-9 min-w-9 px-2.5 has-data-[icon=inline-end]:pr-2 has-data-[icon=inline-start]:pl-2",
            )
            ∷ [],
      )
      ∷ [];
  default_variants = ("variant", "default") ∷ ("size", "default") ∷ [];
}

module _ {M : Type 0} (L : ClassLibs) where
  unfoldable pub toggle : Option String → Option String → Props M → Node M
  toggle variant size p =
      jsx (foreign "Toggle.Root")
        (("data-slot", str "toggle")
          ∷ (
            "className",
            str (
                cn L (
                  lit (
                    L.cva toggle_variants
                      (("variant", some (or_else variant "default"))
                        ∷ ("size", some (or_else size "default"))
                        ∷ [])
                      p.class_name)
                  ∷ [])),
          )
          ∷ [])
        p
