-- ===== src/Ui/Badge.antt =====
-- The components of app/frontend/components/ui/badge/badge.tsx.
use opanel.Common.{String, Bool, false, Option, none, some, [], ◌∷◌, if◌then◌else◌, or_else}
use opanel.Dom.{Props, Node, host, foreign, str}
use opanel.Ui.Cn.{ClassLibs, Cva, lit}
use opanel.Ui.Part.{part}

abbrev pub badge_variants : Cva
badge_variants = record {
  base =
      "group/badge inline-flex h-5 w-fit shrink-0 items-center justify-center gap-1 overflow-hidden rounded-xs border border-transparent px-2 py-0.5 text-xs font-medium whitespace-nowrap transition-all focus-visible:border-ring focus-visible:ring-3 focus-visible:ring-ring/50 has-data-[icon=inline-end]:pr-1.5 has-data-[icon=inline-start]:pl-1.5 aria-invalid:border-destructive aria-invalid:ring-destructive/20 dark:aria-invalid:ring-destructive/40 [&>svg]:pointer-events-none [&>svg]:size-3!";
  variants =
      (
        "variant",
        ("default", "bg-primary text-primary-foreground [a]:hover:bg-primary/80")
            ∷ ("secondary", "bg-secondary text-secondary-foreground [a]:hover:bg-secondary/80")
            ∷ ("success", "bg-success text-success-foreground [a]:hover:bg-success/80")
            ∷ (
              "destructive",
              "bg-destructive/10 text-destructive focus-visible:ring-destructive/20 dark:bg-destructive/20 dark:focus-visible:ring-destructive/40 [a]:hover:bg-destructive/20",
            )
            ∷ (
              "outline",
              "border-border text-foreground [a]:hover:bg-muted [a]:hover:text-muted-foreground",
            )
            ∷ ("ghost", "hover:bg-muted hover:text-muted-foreground dark:hover:bg-muted/50")
            ∷ ("link", "text-primary underline-offset-4 hover:underline")
            ∷ [],
      )
      ∷ [];
  default_variants = ("variant", "default") ∷ [];
}

module _ {M : Type 0} (L : ClassLibs) where
  unfoldable pub badge : Option String → Option Bool → Props M → Node M
  badge variant as_child p =
      part L (if (or_else as_child false) then foreign "Slot.Root" else host "span") "badge"
        (("data-variant", str (or_else variant "default")) ∷ [])
        (lit (L.cva badge_variants (("variant", some (or_else variant "default")) ∷ []) none) ∷ [])
        p
