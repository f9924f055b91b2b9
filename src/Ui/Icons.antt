-- ===== src/Ui/Icons.antt =====
-- The icons of app/frontend/components/ui/icons/icons.tsx: `createHugeicon` around the package's
-- component. An icon is known by its name in `Icons`; a numeric `strokeWidth` is passed on as given.
pub mod LineMd
pub mod Registry
use opanel.Common.{String, true, [], ◌∷◌, if◌then◌else◌}
use opanel.Dom.{
  Attrs, Node, nothing, element, foreign, undefined, str, num, bool, get, spread, truthy,
}

module _ {M : Type 0} where
  unfoldable pub icon : String → Attrs M → Node M
  icon name props =
      element (foreign "HugeiconsIcon")
        (spread
          (("icon", str name)
            ∷ ("size", num 18)
            ∷ ("strokeWidth", str "1.5")
            ∷ ("aria-hidden", if truthy (get "aria-label" props) then undefined else bool true)
            ∷ [])
          props)
        nothing
