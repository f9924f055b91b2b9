-- ===== src/Ui/RadioGroup/Choice.antt =====
-- `RadioGroupChoice` of app/frontend/components/ui/radio-group/radio-group.tsx. `React.useId` is React's:
-- what it answers is an argument.
use opanel.Common.{String, Option, none, some, [], ◌∷◌, or_else}
use opanel.Dom.{Props, Node, nothing, element, host, str, many, spread}
use opanel.Ui.Cn.{ClassLibs, cn, lit, given}
use opanel.Ui.RadioGroup.{radio_group_item}

module _ {M : Type 0} (L : ClassLibs) where
  unfoldable pub choice_description : Option (Node M) → Node M
  choice_description none = nothing
  choice_description (some description) =
      element (host "span") (("className", str "text-base text-muted-foreground") ∷ []) description

  unfoldable pub radio_group_choice :
      String → Option (Node M) → Option String → Option String → Props M → Node M
  unfolding radio_group_item choice_description
  radio_group_choice generated_id description id item_class_name p =
      let item_id = or_else id generated_id in
      element (host "label")
        (("data-slot", str "radio-group-choice")
          ∷ ("htmlFor", str item_id)
          ∷ (
            "className",
            str (
                cn L (
                  lit
                    "group/radio-group-choice relative flex min-h-11 cursor-pointer items-start gap-2.5 rounded-xs border border-input bg-transparent px-3 py-2.5 text-start text-lg transition-colors outline-none select-none hover:bg-muted/50 has-[:focus-visible]:border-ring has-[:focus-visible]:ring-3 has-[:focus-visible]:ring-ring/50 has-data-checked:border-primary/40 has-data-checked:bg-muted has-data-disabled:pointer-events-none has-data-disabled:cursor-not-allowed has-data-disabled:opacity-50 dark:bg-input/20 dark:has-data-checked:bg-muted"
                  ∷ given p.class_name
                  ∷ [])),
          )
          ∷ [])
        (many (
          radio_group_item L (record {
            class_name = some (cn L (lit "mt-1" ∷ given item_class_name ∷ []));
            attrs = spread (("id", str item_id) ∷ []) p.attrs;
            children = nothing;
          })
          ∷ element (host "span")
              (("className", str "flex min-w-0 flex-1 flex-col gap-0.5 leading-snug") ∷ [])
              (many (element (host "span") [] p.children ∷ choice_description description ∷ []))
          ∷ []))
