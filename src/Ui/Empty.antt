-- ===== src/Ui/Empty.antt =====
-- The components of app/frontend/components/ui/empty/empty.tsx.
use opanel.Common.{String, Option, some, [], ◌∷◌, or_else}
use opanel.Dom.{Props, Node, host, str, jsx}
use opanel.Ui.Cn.{ClassLibs, Cva, cn, lit}
use opanel.Ui.Part.{part}

abbrev pub empty_media_variants : Cva
empty_media_variants = record {
  base =
      "mb-2 flex shrink-0 items-center justify-center [&_svg]:pointer-events-none [&_svg]:shrink-0";
  variants =
      (
        "variant",
        ("default", "bg-transparent")
            ∷ (
              "icon",
              "flex size-8 shrink-0 items-center justify-center rounded-xs bg-muted text-foreground [&_svg:not([class*='size-'])]:size-[18px]",
            )
            ∷ [],
      )
      ∷ [];
  default_variants = ("variant", "default") ∷ [];
}

module _ {M : Type 0} (L : ClassLibs) where
  unfoldable pub empty : Props M → Node M
  empty p =
      part L (host "div") "empty" []
        (lit
            "flex w-full min-w-0 flex-1 flex-col items-center justify-center gap-4 rounded-xs border-dashed p-6 text-center text-balance"
          ∷ [])
        p

  unfoldable pub empty_header : Props M → Node M
  empty_header p =
      part L (host "div") "empty-header" [] (lit "flex max-w-sm flex-col items-center gap-2" ∷ []) p

  unfoldable pub empty_media : Option String → Props M → Node M
  empty_media variant p =
      jsx (host "div")
        (("data-slot", str "empty-icon")
          ∷ ("data-variant", str (or_else variant "default"))
          ∷ (
            "className",
            str (
                cn L (
                  lit (
                    L.cva empty_media_variants (("variant", some (or_else variant "default")) ∷ [])
                      p.class_name)
                  ∷ [])),
          )
          ∷ [])
        p

  unfoldable pub empty_title : Props M → Node M
  empty_title p =
      part L (host "div") "empty-title" []
        (lit "font-heading text-lg font-medium tracking-tight" ∷ []) p

  unfoldable pub empty_description : Props M → Node M
  empty_description p =
      part L (host "div") "empty-description" []
        (lit
            "text-base/relaxed text-muted-foreground [&>a]:underline [&>a]:underline-offset-4 [&>a:hover]:text-primary"
          ∷ [])
        p

  unfoldable pub empty_content : Props M → Node M
  empty_content p =
      part L (host "div") "empty-content" []
        (lit "flex w-full max-w-sm min-w-0 flex-col items-center gap-2.5 text-base text-balance"
          ∷ [])
        p
