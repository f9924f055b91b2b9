-- ===== src/Dom/Press.antt =====
-- The buttons of a tree and what a click on one causes.
use opanel.Common.{String, Option, none, Bool, false, List, [], ◌∷◌, ◌++◌, ◌===◌, if◌then◌else◌}
use opanel.Dom.{
  Attrs, Node, Tag, host, foreign, nothing, text, element, join, truthy, get, Value, first_given,
  run_handler, click,
}

abbrev pub is_button : Tag → Bool
is_button (host name) = name === "button"
is_button (foreign name) = false

module _ {M : Type 0} where
  -- The attributes of each `button` of a tree, in order.
  unfoldable pub buttons : Node M → List (Attrs M)
  buttons nothing = []
  buttons (text s) = []
  buttons (element tag attrs children) =
      let inside = buttons children in if is_button tag then attrs ∷ inside else inside
  buttons (join a b) = buttons a ++ buttons b

  -- The value of an attribute on the first element, in document order, that has it.
  unfoldable pub first_attr : String → Node M → Option (Value M)
  unfolding get
  first_attr key nothing = none
  first_attr key (text s) = none
  first_attr key (element tag attrs children) =
      first_given (get key attrs) (first_attr key children)
  first_attr key (join a b) = first_given (first_attr key a) (first_attr key b)

  -- What a click on a button causes: a browser runs no handler of a disabled one.
  unfoldable pub press : Attrs M → List M
  unfolding get
  press attrs =
      if truthy (get "disabled" attrs)
      then []
      else run_handler (get "onClick" attrs) (record { prevent_default = []; value = click })
