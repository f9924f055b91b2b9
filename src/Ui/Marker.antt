-- ===== src/Ui/Marker.antt =====
-- The components of app/frontend/components/ui/marker/marker.tsx.
use opanel.Common.{String, Bool, false, Option, some, [], ◌∷◌, if◌then◌else◌, or_else}
use opanel.Dom.{Props, Node, host, foreign, str, jsx}
use opanel.Ui.Cn.{ClassLibs, Cva, cn, lit}
use opanel.Ui.Part.{part}

abbrev pub marker_variants : Cva
marker_variants = record {
  base =
      "group/marker relative flex min-h-4 w-full items-center gap-2 text-left text-base text-muted-foreground [&_svg:not([class*='size-'])]:size-[18px] [a]:underline [a]:underline-offset-3 [a]:hover:text-foreground";
  variants =
      (
        "variant",
        ("default", "")
            ∷ (
              "separator",
              "before:mr-1 before:h-px before:min-w-0 before:flex-1 before:bg-border after:ml-1 after:h-px after:min-w-0 after:flex-1 after:bg-border",
            )
            ∷ ("border", "border-b border-border pb-2")
            ∷ [],
      )
      ∷ [];
  default_variants = [];
}

module _ {M : Type 0} (L : ClassLibs) where
  unfoldable pub marker : Option String → Option Bool → Props M → Node M
  marker variant as_child p =
      jsx (if (or_else as_child false) then foreign "Slot.Root" else host "div")
        (("data-slot", str "marker")
          ∷ ("data-variant", str (or_else variant "default"))
          ∷ (
            "className",
            str (
                cn L (
                  lit (
                    L.cva marker_variants (("variant", some (or_else variant "default")) ∷ [])
                      p.class_name)
                  ∷ [])),
          )
          ∷ [])
        p

  unfoldable pub marker_icon : Props M → Node M
  marker_icon p =
      part L (host "span") "marker-icon" (("aria-hidden", str "true") ∷ [])
        (lit "size-[18px] shrink-0 [&_svg:not([class*='size-'])]:size-[18px]" ∷ []) p

  unfoldable pub marker_content : Props M → Node M
  marker_content p =
      part L (host "span") "marker-content" []
        (lit
            "min-w-0 wrap-break-word group-data-[variant=separator]/marker:flex-none group-data-[variant=separator]/marker:text-center *:[a]:underline *:[a]:underline-offset-3 *:[a]:hover:text-foreground"
          ∷ [])
        p
