-- ===== src/Ui/Collapsible.antt =====
-- The components of app/frontend/components/ui/collapsible/collapsible.tsx.
use opanel.Common.{[], ◌∷◌}
use opanel.Dom.{Props, Node, element, foreign, str, spread, all_attrs}
use opanel.Ui.Cn.{ClassLibs}

module _ {M : Type 0} (L : ClassLibs) where
  unfoldable pub collapsible : Props M → Node M
  collapsible p =
      element (foreign "Collapsible.Root")
        (spread (("data-slot", str "collapsible") ∷ []) (all_attrs p)) p.children

  unfoldable pub collapsible_trigger : Props M → Node M
  collapsible_trigger p =
      element (foreign "Collapsible.CollapsibleTrigger")
        (spread (("data-slot", str "collapsible-trigger") ∷ []) (all_attrs p)) p.children

  unfoldable pub collapsible_content : Props M → Node M
  collapsible_content p =
      element (foreign "Collapsible.CollapsibleContent")
        (spread (("data-slot", str "collapsible-content") ∷ []) (all_attrs p)) p.children
