-- ===== src/Ui/Field/Errors.antt =====
-- `FieldError` of app/frontend/components/ui/field/field.tsx.
pub mod Messages
pub mod Shown
use opanel.Common.{
  ℕ, Bool, true, false, ◌&&◌, String, Option, none, some, List, [], ◌∷◌, map, if◌then◌else◌, ◌===◌,
}
use opanel.Dom.{
  Node, Props, nothing, text, element, host, str, many, node_holds, spread, show_if, given_text,
}
use opanel.Ui.Cn.{ClassLibs, cn, lit, given}

-- `{ message?: string } | undefined`
pub record FieldMessage : Type 0 where
  pub message : Option String

-- `error?.message`
abbrev pub message_of : Option FieldMessage → Option String
message_of none = none
message_of (some error) = error.message

-- `===` on messages that may be absent.
abbrev pub same_message : Option String → Option String → Bool
same_message none none = true
same_message (some a) (some b) = a === b
same_message _ _ = false

-- `new Map(errors.map((error) => [error?.message, error]))`: a key keeps its place and takes the
-- later value.
unfoldable pub set_error :
    Option String
    → Option FieldMessage
    → List (Option String × Option FieldMessage)
    → List (Option String × Option FieldMessage)
set_error key error [] = (key, error) ∷ []
set_error key error ((k, e) ∷ rest) =
    let later = set_error key error rest in
    if same_message k key then (k, error) ∷ rest else (k, e) ∷ later

unfoldable pub error_map :
    List (Option FieldMessage)
    → List (Option String × Option FieldMessage)
    → List (Option String × Option FieldMessage)
unfolding set_error
error_map [] entries = entries
error_map (error ∷ rest) entries = error_map rest (set_error (message_of error) error entries)

-- `[...map.values()]`
unfoldable pub unique_errors : List (Option FieldMessage) → List (Option FieldMessage)
unfolding error_map
unique_errors errors = map (λ entry. entry.1) (error_map errors [])

module _ {M : Type 0} where
  abbrev pub message_node : Option String → Node M
  message_node none = nothing
  message_node (some message) = text message

  -- `error?.message && <li>{error.message}</li>`
  abbrev pub message_item : Option FieldMessage → Node M
  message_item error =
      if given_text (message_of error)
      then element (host "li") [] (message_node (message_of error))
      else message_node (message_of error)

  -- One message alone, or a list of them.
  abbrev pub messages_node : List (Option FieldMessage) → Node M
  messages_node (error ∷ []) = message_node (message_of error)
  messages_node errors =
      element (host "ul") (("className", str "ml-4 flex list-disc flex-col gap-1") ∷ [])
        (many (map message_item errors))

  abbrev errors_node : Option (List (Option FieldMessage)) → Node M
  errors_node none = nothing
  errors_node (some []) = nothing
  errors_node (some (error ∷ rest)) = messages_node (unique_errors (error ∷ rest))

  unfoldable pub error_content : Node M → Option (List (Option FieldMessage)) → Node M
  unfolding unique_errors
  error_content children errors = if node_holds children then children else errors_node errors

  unfoldable pub field_error : ClassLibs → Option (List (Option FieldMessage)) → Props M → Node M
  unfolding error_content
  field_error L errors p = show_if (node_holds (error_content p.children errors)) (
      element (host "div")
        (spread
          (("role", str "alert")
            ∷ ("data-slot", str "field-error")
            ∷ (
              "className",
              str (cn L (lit "text-lg font-normal text-destructive" ∷ given p.class_name ∷ [])),
            )
            ∷ [])
          p.attrs)
        (error_content p.children errors))
