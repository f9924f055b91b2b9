-- ===== src/Dom/Entries.antt =====
-- Reading a tree: the text of an attribute, and the elements of a package's component with the texts
-- that each shows.
use opanel.Common.{String, Bool, false, Option, some, List, [], ◌∷◌, ◌++◌, ◌===◌, if◌then◌else◌}
use opanel.Dom.{Attrs, Node, Tag, Value, str, host, foreign, nothing, text, element, join, texts}

abbrev pub is_foreign : String → Tag → Bool
is_foreign name (host tag) = false
is_foreign name (foreign component) = component === name

module _ {M : Type 0} where
  -- Whether an attribute is a text.
  abbrev pub says : Option (Value M) → String → Bool
  says (some (str s)) t = s === t
  says _ t = false

  -- The attributes and the texts of each element of a component, in order.
  unfoldable pub entries : String → Node M → List (Attrs M × List String)
  unfolding texts
  entries name nothing = []
  entries name (text s) = []
  entries name (element tag attrs children) =
      let inside = entries name children in
      if is_foreign name tag then (attrs, texts children) ∷ inside else inside
  entries name (join a b) = entries name a ++ entries name b
