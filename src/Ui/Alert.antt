-- ===== src/Ui/Alert.antt =====
-- The components of app/frontend/components/ui/alert/alert.tsx.
use opanel.Common.{String, Option, none, [], ◌∷◌}
use opanel.Dom.{Props, Node, host, str}
use opanel.Ui.Cn.{ClassLibs, Cva, lit}
use opanel.Ui.Part.{part}

abbrev pub alert_variants : Cva
alert_variants = record {
  base =
      "group/alert relative grid w-full gap-0.5 rounded-xs border px-2.5 py-2 text-left text-lg has-data-[slot=alert-action]:relative has-data-[slot=alert-action]:pr-18 has-[>svg]:grid-cols-[auto_1fr] has-[>svg]:gap-x-2 *:[svg]:row-span-2 *:[svg]:translate-y-0.5 *:[svg]:text-current *:[svg:not([class*='size-'])]:size-[18px]";
  variants =
      (
        "variant",
        ("default", "bg-card text-card-foreground")
            ∷ (
              "destructive",
              "bg-card text-destructive *:data-[slot=alert-description]:text-destructive/90 *:[svg]:text-current",
            )
            ∷ [],
      )
      ∷ [];
  default_variants = ("variant", "default") ∷ [];
}

module _ {M : Type 0} (L : ClassLibs) where
  unfoldable pub alert : Option String → Props M → Node M
  alert variant p =
      part L (host "div") "alert" (("role", str "alert") ∷ [])
        (lit (L.cva alert_variants (("variant", variant) ∷ []) none) ∷ []) p

  unfoldable pub alert_title : Props M → Node M
  alert_title p =
      part L (host "div") "alert-title" []
        (lit
            "font-medium group-has-[>svg]/alert:col-start-2 [&_a]:underline [&_a]:underline-offset-3 [&_a]:hover:text-foreground"
          ∷ [])
        p

  unfoldable pub alert_description : Props M → Node M
  alert_description p =
      part L (host "div") "alert-description" []
        (lit
            "text-base text-balance text-muted-foreground md:text-pretty [&_a]:underline [&_a]:underline-offset-3 [&_a]:hover:text-foreground [&_p:not(:last-child)]:mb-4"
          ∷ [])
        p

  unfoldable pub alert_action : Props M → Node M
  alert_action p = part L (host "div") "alert-action" [] (lit "absolute top-2 right-2" ∷ []) p
