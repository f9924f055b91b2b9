-- ===== src/Ui/InputGroup.antt =====
-- The components of app/frontend/components/ui/input-group/input-group.tsx.
pub mod Addon
use opanel.Common.{String, Bool, Option, none, some, [], ◌∷◌, or_else}
use opanel.Dom.{Props, Node, host, str, jsx, spread}
use opanel.Ui.Cn.{ClassLibs, Cva, cn, lit, given}
use opanel.Ui.Part.{part}
use opanel.Ui.Button.{button}
use opanel.Ui.Input.{input}
use opanel.Ui.Textarea.{textarea}

abbrev pub input_group_addon_variants : Cva
input_group_addon_variants = record {
  base =
      "flex h-auto cursor-text items-center justify-center gap-2 py-1.5 text-lg font-medium text-muted-foreground select-none group-data-[disabled=true]/input-group:opacity-50 [&>kbd]:rounded-xs [&>svg:not([class*='size-'])]:size-[18px]";
  variants =
      (
        "align",
        ("inline-start", "order-first pl-2 has-[>button]:ml-[-0.3rem] has-[>kbd]:ml-[-0.15rem]")
            ∷ ("inline-end", "order-last pr-2 has-[>button]:mr-[-0.3rem] has-[>kbd]:mr-[-0.15rem]")
            ∷ (
              "block-start",
              "order-first w-full justify-start px-2.5 pt-2 group-has-[>input]/input-group:pt-2 [.border-b]:pb-2",
            )
            ∷ (
              "block-end",
              "order-last w-full justify-start px-2.5 pb-2 group-has-[>input]/input-group:pb-2 [.border-t]:pt-2",
            )
            ∷ [],
      )
      ∷ [];
  default_variants = ("align", "inline-start") ∷ [];
}

abbrev pub input_group_button_variants : Cva
input_group_button_variants = record {
  base = "flex items-center gap-2 text-lg shadow-none";
  variants =
      (
        "size",
        ("xs", "h-6 gap-1 rounded-md px-1.5 [&>svg:not([class*='size-'])]:size-3.5")
            ∷ ("sm", "")
            ∷ ("icon-xs", "size-6 rounded-md p-0 has-[>svg]:p-0")
            ∷ ("icon-sm", "size-8 p-0 has-[>svg]:p-0")
            ∷ [],
      )
      ∷ [];
  default_variants = ("size", "xs") ∷ [];
}

module _ {M : Type 0} (L : ClassLibs) where
  unfoldable pub input_group : Props M → Node M
  input_group p =
      part L (host "div") "input-group" (("role", str "group") ∷ [])
        (lit
            "group/input-group relative flex w-full min-w-0 items-center rounded-md border border-input transition-colors outline-none in-data-[slot=combobox-content]:focus-within:border-inherit in-data-[slot=combobox-content]:focus-within:ring-0 has-disabled:bg-input/50 has-disabled:opacity-50 has-[[data-slot=input-group-control]:focus-visible]:border-ring has-[[data-slot=input-group-control]:focus-visible]:ring-3 has-[[data-slot=input-group-control]:focus-visible]:ring-ring/50 has-[[data-slot][aria-invalid=true]]:border-destructive has-[[data-slot][aria-invalid=true]]:ring-3 has-[[data-slot][aria-invalid=true]]:ring-destructive/20 has-[>[data-align=block-end]]:h-auto has-[>[data-align=block-end]]:flex-col has-[>[data-align=block-start]]:h-auto has-[>[data-align=block-start]]:flex-col has-[>textarea]:h-auto dark:bg-input/30 dark:has-disabled:bg-input/80 dark:has-[[data-slot][aria-invalid=true]]:ring-destructive/40 has-[>[data-align=block-end]]:[&>input]:pt-3 has-[>[data-align=block-start]]:[&>input]:pb-3 has-[>[data-align=inline-end]]:[&>input]:pr-1.5 has-[>[data-align=inline-start]]:[&>input]:pl-1.5"
          ∷ [])
        p

  unfoldable pub input_group_button :
      Option String → Option String → Option String → Option Bool → Props M → Node M
  unfolding button
  input_group_button input_type variant size as_child p =
      button L (some (or_else variant "ghost")) none as_child (record {
        class_name = some (
            cn L (
              lit (L.cva input_group_button_variants (("size", some (or_else size "xs")) ∷ []) none)
              ∷ given p.class_name
              ∷ []));
        attrs =
            spread
              (("type", str (or_else input_type "button"))
                ∷ ("data-size", str (or_else size "xs"))
                ∷ [])
              p.attrs;
        children = p.children;
      })

  unfoldable pub input_group_text : Props M → Node M
  input_group_text p =
      jsx (host "span")
        ((
          "className",
          str (
              cn L (
                lit
                  "flex items-center gap-2 text-lg text-muted-foreground [&_svg]:pointer-events-none [&_svg:not([class*='size-'])]:size-[18px]"
                ∷ given p.class_name
                ∷ [])),
        )
          ∷ [])
        p

  unfoldable pub input_group_input : Option Bool → Option String → Props M → Node M
  unfolding input
  input_group_input as_child input_type p = input L as_child input_type (record {
    class_name = some (
        cn L (
          lit
            "flex-1 rounded-none border-0 bg-transparent shadow-none ring-0 focus-visible:ring-0 disabled:bg-transparent aria-invalid:ring-0 dark:bg-transparent dark:disabled:bg-transparent"
          ∷ given p.class_name
          ∷ []));
    attrs = spread (("data-slot", str "input-group-control") ∷ []) p.attrs;
    children = p.children;
  })

  unfoldable pub input_group_textarea : Props M → Node M
  unfolding textarea
  input_group_textarea p = textarea L (record {
    class_name = some (
        cn L (
          lit
            "flex-1 resize-none rounded-none border-0 bg-transparent py-2 shadow-none ring-0 focus-visible:ring-0 disabled:bg-transparent aria-invalid:ring-0 dark:bg-transparent dark:disabled:bg-transparent"
          ∷ given p.class_name
          ∷ []));
    attrs = spread (("data-slot", str "input-group-control") ∷ []) p.attrs;
    children = p.children;
  })
