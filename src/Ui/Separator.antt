-- ===== src/Ui/Separator.antt =====
-- The components of app/frontend/components/ui/separator/separator.tsx.
use opanel.Common.{String, Bool, true, Option, [], ◌∷◌, or_else}
use opanel.Dom.{Props, Node, foreign, str, bool}
use opanel.Ui.Cn.{ClassLibs, lit}
use opanel.Ui.Part.{part}

module _ {M : Type 0} (L : ClassLibs) where
  unfoldable pub separator : Option String → Option Bool → Props M → Node M
  separator orientation decorative p =
      part L (foreign "Separator.Root") "separator"
        (("decorative", bool (or_else decorative true))
          ∷ ("orientation", str (or_else orientation "horizontal"))
          ∷ [])
        (lit
            "shrink-0 bg-border data-horizontal:h-px data-horizontal:w-full data-vertical:w-px data-vertical:self-stretch"
          ∷ [])
        p
