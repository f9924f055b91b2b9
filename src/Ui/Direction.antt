-- ===== src/Ui/Direction.antt =====
-- app/frontend/components/ui/direction/direction.tsx. `useDirection` is radix-ui's.
use opanel.Common.{String, Option, [], ◌∷◌, or_else}
use opanel.Dom.{Node, element, foreign, str}

-- `direction ?? dir ?? 'ltr'`
unfoldable pub direction_provider : {M : Type 0} → Option String → Option String → Node M → Node M
direction_provider dir direction children =
    element (foreign "Direction.DirectionProvider")
      (("dir", str (or_else direction (or_else dir "ltr"))) ∷ []) children
