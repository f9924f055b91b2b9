-- ===== src/Ui/Field.antt =====
-- The components of app/frontend/components/ui/field/field.tsx.
pub mod Errors
use opanel.Common.{String, Option, none, some, [], ◌∷◌, or_else}
use opanel.Dom.{
  Props, Node, nothing, element, host, str, bool, jsx, many, show_if, spread, node_holds,
}
use opanel.Ui.Cn.{ClassLibs, Cva, cn, lit, given}
use opanel.Ui.Part.{part}
use opanel.Ui.Label.{label}
use opanel.Ui.Separator.{separator}

abbrev pub field_variants : Cva
field_variants = record {
  base = "group/field flex w-full gap-2 data-[invalid=true]:text-destructive";
  variants =
      (
        "orientation",
        ("vertical", "flex-col *:w-full [&>.sr-only]:w-auto")
            ∷ (
              "horizontal",
              "flex-row items-center has-[>[data-slot=field-content]]:items-start *:data-[slot=field-label]:flex-auto has-[>[data-slot=field-content]]:[&>[role=checkbox],[role=radio]]:mt-px",
            )
            ∷ (
              "responsive",
              "flex-col *:w-full @md/field-group:flex-row @md/field-group:items-center @md/field-group:*:w-auto @md/field-group:has-[>[data-slot=field-content]]:items-start @md/field-group:*:data-[slot=field-label]:flex-auto [&>.sr-only]:w-auto @md/field-group:has-[>[data-slot=field-content]]:[&>[role=checkbox],[role=radio]]:mt-px",
            )
            ∷ [],
      )
      ∷ [];
  default_variants = ("orientation", "vertical") ∷ [];
}

module _ {M : Type 0} (L : ClassLibs) where
  unfoldable pub field_set : Props M → Node M
  field_set p =
      part L (host "fieldset") "field-set" []
        (lit
            "flex flex-col gap-4 has-[>[data-slot=checkbox-group]]:gap-3 has-[>[data-slot=radio-group]]:gap-3"
          ∷ [])
        p

  unfoldable pub field_legend : Option String → Props M → Node M
  field_legend variant p =
      part L (host "legend") "field-legend" (("data-variant", str (or_else variant "legend")) ∷ [])
        (lit "mb-1.5 text-lg font-medium" ∷ []) p

  unfoldable pub field_group : Props M → Node M
  field_group p =
      part L (host "div") "field-group" []
        (lit
            "group/field-group @container/field-group flex w-full flex-col gap-5 data-[slot=checkbox-group]:gap-3 *:data-[slot=field-group]:gap-4"
          ∷ [])
        p

  unfoldable pub field : Option String → Props M → Node M
  field orientation p =
      jsx (host "div")
        (("role", str "group")
          ∷ ("data-slot", str "field")
          ∷ ("data-orientation", str (or_else orientation "vertical"))
          ∷ (
            "className",
            str (
                cn L (
                  lit (
                    L.cva field_variants
                      (("orientation", some (or_else orientation "vertical")) ∷ []) none)
                  ∷ given p.class_name
                  ∷ [])),
          )
          ∷ [])
        p

  unfoldable pub field_content : Props M → Node M
  field_content p =
      part L (host "div") "field-content" []
        (lit "group/field-content flex flex-1 flex-col gap-0.5 leading-snug" ∷ []) p

  unfoldable pub field_label : Props M → Node M
  unfolding label
  field_label p = label L (record {
    class_name = some (
        cn L (
          lit
            "group/field-label peer/field-label flex w-fit gap-2 text-lg leading-snug group-data-[disabled=true]/field:opacity-50 has-data-checked:border-primary/30 has-data-checked:bg-primary/5 has-[>[data-slot=field]]:rounded-xs has-[>[data-slot=field]]:border has-[>[data-slot=field]]:not-has-[:disabled,[data-disabled]]:hover:bg-muted/50 has-[>[data-slot=field]]:has-[:focus-visible]:border-ring has-[>[data-slot=field]]:has-[:focus-visible]:ring-3 has-[>[data-slot=field]]:has-[:focus-visible]:ring-ring/50 *:data-[slot=field]:p-2.5 dark:has-data-checked:border-primary/20 dark:has-data-checked:bg-primary/10"
          ∷ lit "has-[>[data-slot=field]]:w-full has-[>[data-slot=field]]:flex-col"
          ∷ given p.class_name
          ∷ []));
    attrs = spread (("data-slot", str "field-label") ∷ []) p.attrs;
    children = p.children;
  })

  unfoldable pub field_title : Props M → Node M
  field_title p =
      part L (host "div") "field-label" []
        (lit
            "flex w-fit items-center gap-2 text-lg font-medium group-data-[disabled=true]/field:opacity-50"
          ∷ [])
        p

  unfoldable pub field_description : Props M → Node M
  field_description p =
      part L (host "p") "field-description" []
        (lit
            "text-left text-lg leading-normal font-extralight text-muted-foreground group-has-data-horizontal/field:text-balance [[data-variant=legend]+&]:-mt-1.5"
          ∷ lit "last:mt-0 nth-last-2:-mt-1"
          ∷ lit "[&>a]:underline [&>a]:underline-offset-4 [&>a:hover]:text-primary"
          ∷ [])
        p

  unfoldable pub field_separator : Props M → Node M
  unfolding separator
  field_separator p =
      element (host "div")
        (spread
          (("data-slot", str "field-separator")
            ∷ ("data-content", bool (node_holds p.children))
            ∷ (
              "className",
              str (
                  cn L (
                    lit "relative -my-2 h-5 text-lg group-data-[variant=outline]/field-group:-mb-2"
                    ∷ given p.class_name
                    ∷ [])),
            )
            ∷ [])
          p.attrs)
        (many (
          (separator L none none (record {
            class_name = some "absolute inset-0 top-1/2";
            attrs = [];
            children = nothing;
          }))
          ∷ (show_if (node_holds p.children) (
              element (host "span")
                ((
                  "className",
                  str "relative mx-auto block w-fit bg-background px-2 text-muted-foreground",
                )
                  ∷ ("data-slot", str "field-separator-content")
                  ∷ [])
                p.children))
          ∷ []))
