-- ===== src/Ui/InputGroup/Addon.antt =====
-- `InputGroupAddon` of app/frontend/components/ui/input-group/input-group.tsx. What the browser knows is
-- an argument: whether an event comes from inside a button, and the focus of the input beside.
use opanel.Common.{String, Bool, Option, none, some, List, [], ◌∷◌, if◌then◌else◌, or_else}
use opanel.Dom.{Event, Props, Node, host, str, handler, jsx}
use opanel.Ui.Cn.{ClassLibs, cn, lit, given}
use opanel.Ui.InputGroup.{input_group_addon_variants}

pub record AddonDom (M : Type 0) : Type 0 where
  pub within_button : Event M → Bool
  -- `e.currentTarget.parentElement?.querySelector('input')?.focus()`
  pub focus_input : List M

module _ {M : Type 0} (L : ClassLibs) (dom : AddonDom M) where
  unfoldable pub input_group_addon : Option String → Props M → Node M
  input_group_addon align p =
      jsx (host "div")
        (("role", str "group")
          ∷ ("data-slot", str "input-group-addon")
          ∷ ("data-align", str (or_else align "inline-start"))
          ∷ (
            "className",
            str (
                cn L (
                  lit (
                    L.cva input_group_addon_variants
                      (("align", some (or_else align "inline-start")) ∷ []) none)
                  ∷ given p.class_name
                  ∷ [])),
          )
          ∷ ("onClick", handler λ e. if dom.within_button e then [] else dom.focus_input)
          ∷ [])
        p
