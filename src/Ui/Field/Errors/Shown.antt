-- ===== src/Ui/Field/Errors/Shown.antt =====
-- What `FieldError` shows.
use opanel.Common.{
  not, String, Option, none, some, List, [], ◌∷◌, ◌++◌, map, filter, if◌then◌else◌, ◌===◌, ◌≡◌,
  refl, ap, ◌∙◌, arith, Bool-cases, inl, inr,
}
use opanel.Dom.{
  Attrs, Tag, element, join, text, Node, Props, nothing, texts, show_if, node_holds, many,
  given_text,
}
use opanel.Ui.Cn.{ClassLibs}
use opanel.Ui.Field.Errors.{
  FieldMessage, message_of, message_node, message_item, messages_node, unique_errors, error_content,
  field_error,
}
use opanel.Ui.Field.Errors.Messages.{once, unique_errors-once}

-- The texts of a tree that are not empty.
abbrev pub shown : {M : Type 0} → Node M → List String
shown node = filter (λ s. not (s === "")) (texts node)

-- The messages that are there and not empty.
abbrev pub filled_messages : List (Option String) → List String
filled_messages [] = []
filled_messages (none ∷ rest) = filled_messages rest
filled_messages (some s ∷ rest) =
    let others = filled_messages rest in if s === "" then others else s ∷ others

filter-append :
    (a b : List String)
    → filter (λ s. not (s === "")) (a ++ b)
      ≡ filter (λ s. not (s === "")) a ++ filter (λ s. not (s === "")) b
filter-append [] b = refl
filter-append (s ∷ a) b = ground (arith, filter-append a b)

shown-message :
    (M : Type 0) (m : Option String) → shown (message_node {M = M} m) ≡ filled_messages (m ∷ [])
unfolding texts
shown-message M none = refl
shown-message M (some s) = ground arith

shown-item :
    (M : Type 0) (e : Option FieldMessage)
    → shown (message_item {M = M} e) ≡ filled_messages (message_of e ∷ [])
unfolding texts
shown-item M e = elim (Bool-cases (given_text (message_of e))) [
  | inl there ↦ rw there (shown-message M (message_of e))
  | inr missing ↦ rw missing (shown-message M (message_of e))
]

filled-cons :
    (m : Option String) (ms : List (Option String))
    → filled_messages (m ∷ []) ++ filled_messages ms ≡ filled_messages (m ∷ ms)
filled-cons none ms = refl
filled-cons (some s) ms = ground arith

shown-items :
    (M : Type 0) (es : List (Option FieldMessage))
    → shown (many (map (message_item {M = M}) es)) ≡ filled_messages (map message_of es)
unfolding texts
shown-items M [] = refl
shown-items M (e ∷ es) =
    filter-append (texts (message_item {M = M} e)) (texts (many (map (message_item {M = M}) es)))
    ∙ rw (shown-item M e, shown-items M es) (filled-cons (message_of e) (map message_of es))

shown-messages :
    (M : Type 0) (es : List (Option FieldMessage))
    → shown (messages_node {M = M} es) ≡ filled_messages (map message_of es)
unfolding texts
shown-messages M [] = refl
shown-messages M (e ∷ []) = shown-message M (message_of e)
shown-messages M (e ∷ f ∷ es) = shown-items M (e ∷ f ∷ es)

-- An element around a node shows what the node shows, if it is left out where the node is empty.
shown-wrapped :
    {M : Type 0} (tag : Tag) (attrs : Attrs M) (node : Node M)
    → shown (show_if (node_holds node) (element tag attrs node)) ≡ shown node
unfolding texts
shown-wrapped tag attrs nothing = refl
shown-wrapped tag attrs (text s) = ground arith
shown-wrapped tag attrs (element t inner children) = refl
shown-wrapped tag attrs (join a b) = refl

shown-content :
    (M : Type 0) (errors : List (Option FieldMessage))
    → shown (error_content {M = M} nothing (some errors))
      ≡ filled_messages (once (map message_of errors))
unfolding error_content texts
shown-content M [] = refl
shown-content M (e ∷ es) =
    shown-messages M (unique_errors (e ∷ es)) ∙ ap filled_messages (unique_errors-once (e ∷ es))

-- A field's alert without children of the caller shows the messages of the errors that are not
-- empty, each once, in the order in which they first came, and nothing else.
pub field_error-shown :
    {M : Type 0} (L : ClassLibs) (errors : List (Option FieldMessage)) (p : Props M)
    → p.children ≡ nothing
    → shown (field_error L (some errors) p) ≡ filled_messages (once (map message_of errors))
unfolding field_error
field_error-shown {M = M} L errors p childless =
    rw childless (shown-wrapped _ _ (error_content nothing (some errors)) ∙ shown-content M errors)
