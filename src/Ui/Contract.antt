-- ===== src/Ui/Contract.antt =====
-- What a part of the component library promises its caller, and the one lemma that proves it.
pub mod Control
pub mod Library
pub mod Overlay
pub mod Surface
use opanel.Common.{String, ◌≡◌, refl, ◌∙◌, none, some, List, [], ◌∷◌, ◌++◌, arith}
use opanel.Dom.{Attrs, Props, Node, Tag, Value, str, get, root_attrs, root_children}
use opanel.Dom.Attrs.{get-append, get-spread_kept, get-spread_given}
use opanel.Ui.Cn.{ClassLibs, ClassValue, cn, given}
use opanel.Ui.Part.{part}

module _ {M : Type 0} where
  -- The element at the root has the part's `data-slot` unless the caller gives another; a prop of
  -- the caller wins over the part's own; the children are the caller's; and the class is `cn` of
  -- classes of the part, with the caller's class after them.
  pub record IsPart (L : ClassLibs) (slot : String) (render : Props M → Node M) : Type 0 where
    pub named :
        (p : Props M)
        → get "data-slot" p.attrs ≡ none
        → get "data-slot" (root_attrs (render p)) ≡ some (str slot)
    pub caller_wins :
        (p : Props M) (key : String) (v : Value M)
        → get key p.attrs ≡ some v
        → get key (root_attrs (render p)) ≡ some v
    pub keeps_children : (p : Props M) → root_children (render p) ≡ p.children
    pub own_classes : List ClassValue
    pub class_last :
        (p : Props M)
        → get "className" p.attrs ≡ none
        → get "className" (root_attrs (render p))
          ≡ some (str (cn L (own_classes ++ given p.class_name ∷ [])))

  pub part-IsPart :
      (L : ClassLibs) (tag : Tag) (slot : String) (own : Attrs M) (classes : List ClassValue)
      → get "className" own ≡ none
      → IsPart L slot (part L tag slot own classes)
  unfolding part get
  part-IsPart L tag slot own classes unclassed = record {
    named = λ p h. get-spread_kept "data-slot" _ p.attrs h;
    caller_wins = λ p key v h. get-spread_given key _ p.attrs h;
    keeps_children = λ p. refl;
    own_classes = classes;
    class_last = λ p h.
        get-spread_kept "className" _ p.attrs h
        ∙ ground (
          arith,
          get-append "className" own
              (("className", str (cn L (classes ++ given p.class_name ∷ []))) ∷ []),
        );
  }
