-- ===== src/Ui/AspectRatio.antt =====
-- The components of app/frontend/components/ui/aspect-ratio/aspect-ratio.tsx.
use opanel.Common.{[], ◌∷◌}
use opanel.Dom.{Props, Node, element, foreign, str, spread, all_attrs}
use opanel.Ui.Cn.{ClassLibs}

module _ {M : Type 0} (L : ClassLibs) where
  unfoldable pub aspect_ratio : Props M → Node M
  aspect_ratio p =
      element (foreign "AspectRatio.Root")
        (spread (("data-slot", str "aspect-ratio") ∷ []) (all_attrs p)) p.children
