-- ===== src/Ui/Item.antt =====
-- The components of app/frontend/components/ui/item/item.tsx.
use opanel.Common.{String, Bool, false, Option, some, [], ◌∷◌, if◌then◌else◌, or_else}
use opanel.Dom.{Props, Node, host, foreign, str, jsx, spread, first_given}
use opanel.Ui.Cn.{ClassLibs, Cva, cn, lit, given}
use opanel.Ui.Part.{part}
use opanel.Ui.Separator.{separator}

abbrev pub item_variants : Cva
item_variants = record {
  base =
      "group/item flex w-full flex-wrap items-center rounded-xs border text-lg transition-colors duration-100 outline-none focus-visible:border-ring focus-visible:ring-3 focus-visible:ring-ring/50 [a]:transition-colors [a]:hover:bg-muted";
  variants =
      (
        "variant",
        ("default", "border-transparent")
            ∷ ("outline", "border-border")
            ∷ ("muted", "border-transparent bg-muted/50")
            ∷ [],
      )
      ∷ (
        "size",
        ("default", "gap-2.5 px-3 py-2.5")
            ∷ ("sm", "gap-2.5 px-3 py-2.5")
            ∷ ("xs", "gap-2 px-2.5 py-2 in-data-[slot=dropdown-menu-content]:p-0")
            ∷ [],
      )
      ∷ [];
  default_variants = ("variant", "default") ∷ ("size", "default") ∷ [];
}

abbrev pub item_media_variants : Cva
item_media_variants = record {
  base =
      "flex shrink-0 items-center justify-center gap-2 group-has-data-[slot=item-description]/item:translate-y-0.5 group-has-data-[slot=item-description]/item:self-start [&_svg]:pointer-events-none";
  variants =
      (
        "variant",
        ("default", "bg-transparent")
            ∷ ("icon", "[&_svg:not([class*='size-'])]:size-[18px]")
            ∷ (
              "image",
              "size-10 overflow-hidden rounded-xs group-data-[size=sm]/item:size-8 group-data-[size=xs]/item:size-6 [&_img]:size-full [&_img]:object-cover",
            )
            ∷ [],
      )
      ∷ [];
  default_variants = ("variant", "default") ∷ [];
}

module _ {M : Type 0} (L : ClassLibs) where
  unfoldable pub item_group : Props M → Node M
  item_group p =
      jsx (host "div")
        (("role", str "list")
          ∷ ("data-slot", str "item-group")
          ∷ (
            "className",
            str (
                cn L (
                  lit
                    "group/item-group flex w-full flex-col gap-4 has-data-[size=sm]:gap-2.5 has-data-[size=xs]:gap-2"
                  ∷ given p.class_name
                  ∷ [])),
          )
          ∷ [])
        p

  unfoldable pub item_separator : Option String → Option Bool → Props M → Node M
  unfolding separator
  item_separator orientation decorative p =
      separator L (first_given orientation (some "horizontal")) decorative (record {
        class_name = some (cn L (lit "my-2" ∷ given p.class_name ∷ []));
        attrs = spread (("data-slot", str "item-separator") ∷ []) p.attrs;
        children = p.children;
      })

  unfoldable pub item : Option String → Option String → Option Bool → Props M → Node M
  item variant size as_child p =
      jsx (if (or_else as_child false) then foreign "Slot.Root" else host "div")
        (("data-slot", str "item")
          ∷ ("data-variant", str (or_else variant "default"))
          ∷ ("data-size", str (or_else size "default"))
          ∷ (
            "className",
            str (
                cn L (
                  lit (
                    L.cva item_variants
                      (("variant", some (or_else variant "default"))
                        ∷ ("size", some (or_else size "default"))
                        ∷ [])
                      p.class_name)
                  ∷ [])),
          )
          ∷ [])
        p

  unfoldable pub item_media : Option String → Props M → Node M
  item_media variant p =
      jsx (host "div")
        (("data-slot", str "item-media")
          ∷ ("data-variant", str (or_else variant "default"))
          ∷ (
            "className",
            str (
                cn L (
                  lit (
                    L.cva item_media_variants (("variant", some (or_else variant "default")) ∷ [])
                      p.class_name)
                  ∷ [])),
          )
          ∷ [])
        p

  unfoldable pub item_content : Props M → Node M
  item_content p =
      part L (host "div") "item-content" []
        (lit
            "flex flex-1 flex-col gap-1 group-data-[size=xs]/item:gap-0 [&+[data-slot=item-content]]:flex-none"
          ∷ [])
        p

  unfoldable pub item_title : Props M → Node M
  item_title p =
      part L (host "div") "item-title" []
        (lit
            "line-clamp-1 flex w-fit items-center gap-2 text-lg leading-snug font-medium underline-offset-4"
          ∷ [])
        p

  unfoldable pub item_description : Props M → Node M
  item_description p =
      part L (host "p") "item-description" []
        (lit
            "line-clamp-2 text-left text-base leading-normal font-normal text-muted-foreground group-data-[size=xs]/item:text-xs [&>a]:underline [&>a]:underline-offset-4 [&>a:hover]:text-primary"
          ∷ [])
        p

  unfoldable pub item_actions : Props M → Node M
  item_actions p = part L (host "div") "item-actions" [] (lit "flex items-center gap-2" ∷ []) p

  unfoldable pub item_header : Props M → Node M
  item_header p =
      part L (host "div") "item-header" []
        (lit "flex basis-full items-center justify-between gap-2" ∷ []) p

  unfoldable pub item_footer : Props M → Node M
  item_footer p =
      part L (host "div") "item-footer" []
        (lit "flex basis-full items-center justify-between gap-2" ∷ []) p
