-- ===== src/Ui/Label.antt =====
-- The components of app/frontend/components/ui/label/label.tsx.
use opanel.Common.{[], ◌∷◌}
use opanel.Dom.{Props, Node, foreign}
use opanel.Ui.Cn.{ClassLibs, lit}
use opanel.Ui.Part.{part}

module _ {M : Type 0} (L : ClassLibs) where
  unfoldable pub label : Props M → Node M
  label p =
      part L (foreign "Label.Root") "label" []
        (lit
            "flex items-center gap-2 text-lg leading-none font-medium select-none group-data-[disabled=true]:pointer-events-none group-data-[disabled=true]:opacity-50 peer-disabled:cursor-not-allowed peer-disabled:opacity-50"
          ∷ [])
        p
