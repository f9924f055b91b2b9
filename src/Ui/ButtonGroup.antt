-- ===== src/Ui/ButtonGroup.antt =====
-- The components of app/frontend/components/ui/button-group/button-group.tsx.
use opanel.Common.{String, Bool, false, Option, none, some, [], ◌∷◌, if◌then◌else◌, or_else}
use opanel.Dom.{Props, Node, host, foreign, str, jsx, spread, opt_str}
use opanel.Ui.Cn.{ClassLibs, Cva, cn, lit, given}
use opanel.Ui.Separator.{separator}

abbrev pub button_group_variants : Cva
button_group_variants = record {
  base =
      "group/button-group flex w-fit items-stretch *:focus-visible:relative *:focus-visible:z-10 has-[>[data-slot=button-group]]:gap-2 [&>[data-slot=select-trigger]:not([class*='w-'])]:w-fit [&>input]:flex-1";
  variants =
      (
        "orientation",
        (
          "horizontal",
          "[&>*]:rounded-none [&>*:not(:first-child)]:border-l-0 [&>*:first-child]:rounded-l-md [&>*:last-child]:rounded-r-md",
        )
            ∷ (
              "vertical",
              "flex-col [&>*]:rounded-none [&>*:not(:first-child)]:border-t-0 [&>*:first-child]:rounded-t-md [&>*:last-child]:rounded-b-md",
            )
            ∷ [],
      )
      ∷ [];
  default_variants = ("orientation", "horizontal") ∷ [];
}

module _ {M : Type 0} (L : ClassLibs) where
  unfoldable pub button_group : Option String → Props M → Node M
  button_group orientation p =
      jsx (host "div")
        (("role", str "group")
          ∷ ("data-slot", str "button-group")
          ∷ ("data-orientation", opt_str orientation)
          ∷ (
            "className",
            str (
                cn L (
                  lit (L.cva button_group_variants (("orientation", orientation) ∷ []) none)
                  ∷ given p.class_name
                  ∷ [])),
          )
          ∷ [])
        p

  unfoldable pub button_group_text : Option Bool → Props M → Node M
  button_group_text as_child p =
      jsx (if (or_else as_child false) then foreign "Slot.Root" else host "div")
        ((
          "className",
          str (
              cn L (
                lit
                  "flex items-center gap-2 rounded-none border bg-muted px-2.5 text-lg font-medium [&_svg]:pointer-events-none [&_svg:not([class*='size-'])]:size-[18px]"
                ∷ given p.class_name
                ∷ [])),
        )
          ∷ [])
        p

  unfoldable pub button_group_separator : Option String → Option Bool → Props M → Node M
  unfolding separator
  button_group_separator orientation decorative p =
      separator L (some (or_else orientation "vertical")) decorative (record {
        class_name = some (
            cn L (
              lit
                "relative self-stretch bg-input data-horizontal:mx-px data-horizontal:w-auto data-vertical:my-px data-vertical:h-auto"
              ∷ given p.class_name
              ∷ []));
        attrs = spread (("data-slot", str "button-group-separator") ∷ []) p.attrs;
        children = p.children;
      })
