-- ===== src/Ui/Skeleton.antt =====
-- The components of app/frontend/components/ui/skeleton/skeleton.tsx.
pub mod Layout
pub mod Named
pub mod Own
pub mod Panels
pub mod Rows
pub mod Shapes
use opanel.Common.{[], ◌∷◌}
use opanel.Dom.{Props, Node, host}
use opanel.Ui.Cn.{ClassLibs, lit}
use opanel.Ui.Part.{part}

module _ {M : Type 0} (L : ClassLibs) where
  unfoldable pub skeleton : Props M → Node M
  skeleton p = part L (host "div") "skeleton" [] (lit "animate-pulse rounded-xs bg-muted" ∷ []) p
