-- ===== src/Ui/Field/Errors/Messages.antt =====
-- The messages that a field shows: each once, in the order in which they first came.
use mathlib.Core.List.{append-nil, append_assoc}
use mathlib.Core.Path.{ap₂}
use opanel.Common.{
  Bool, true, false, not, ◌||◌, String, Option, none, some, List, [], ◌∷◌, ◌++◌, map, filter,
  if◌then◌else◌, ◌≡◌, ◌↔◌, refl, sym, ap, ◌∙◌, arith, eq_iff, All, Bool-cases, inl, inr,
}
use opanel.Ui.Field.Errors.{
  FieldMessage, message_of, same_message, set_error, error_map, unique_errors,
}

same_message_iff : (a b : Option String) → (same_message a b ≡ true) ↔ (a ≡ b)
same_message_iff none none = ground arith
same_message_iff none (some b) = ground arith
same_message_iff (some a) none = ground arith
same_message_iff (some a) (some b) = ground (arith, eq_iff a b)

-- The messages of a list, each where it first stands.
abbrev pub once : List (Option String) → List (Option String)
once [] = []
once (m ∷ ms) = m ∷ filter (λ other. not (same_message m other)) (once ms)

unfoldable pub holds_message : Option String → List (Option String) → Bool
holds_message m [] = false
holds_message m (k ∷ ks) = same_message k m || holds_message m ks

abbrev Entries : Type 0
Entries = List (Option String × Option FieldMessage)

abbrev keys : Entries → List (Option String)
keys entries = map (λ entry. entry.0) entries

keys-set_error :
    (m : Option String) (e : Option FieldMessage) (entries : Entries)
    → keys (set_error m e entries)
      ≡ (if holds_message m (keys entries) then keys entries else keys entries ++ m ∷ [])
unfolding set_error holds_message
keys-set_error m e [] = refl
keys-set_error m e ((k, f) ∷ rest) = ground (arith, keys-set_error m e rest)

-- Those of the messages that are not yet among the keys.
abbrev fresh : List (Option String) → List (Option String) → List (Option String)
fresh ks ms = filter (λ m. not (holds_message m ks)) ms

fresh-seen :
    (ks : List (Option String)) (m : Option String) (ms : List (Option String))
    → holds_message m ks ≡ true
    → fresh ks (filter (λ other. not (same_message m other)) ms) ≡ fresh ks ms
unfolding holds_message
fresh-seen ks m [] h = refl
fresh-seen ks m (x ∷ ms) h = ground (arith, fresh-seen ks m ms h, same_message_iff m x)

holds-append :
    (x m : Option String) (ks : List (Option String))
    → holds_message x (ks ++ m ∷ []) ≡ (holds_message x ks || same_message m x)
unfolding holds_message
holds-append x m [] = ground arith
holds-append x m (k ∷ ks) = ground (arith, holds-append x m ks)

fresh-append :
    (ks : List (Option String)) (m : Option String) (ms : List (Option String))
    → fresh (ks ++ m ∷ []) ms ≡ fresh ks (filter (λ other. not (same_message m other)) ms)
fresh-append ks m [] = refl
fresh-append ks m (x ∷ ms) = ground (arith, fresh-append ks m ms, holds-append x m ks)

keys-error_map :
    (errors : List (Option FieldMessage)) (entries : Entries)
    → keys (error_map errors entries)
      ≡ keys entries ++ fresh (keys entries) (once (map message_of errors))
unfolding error_map
keys-error_map [] entries = sym (append-nil (keys entries))
keys-error_map (error ∷ rest) entries =
    let m = message_of error in
    let later = once (map message_of rest) in
    keys-error_map rest (set_error m error entries)
    ∙ elim (Bool-cases (holds_message m (keys entries))) [
      | inl seen ↦
          rw (keys-set_error m error entries, seen)
            (ap (λ ms. keys entries ++ ms) (sym (fresh-seen (keys entries) m later seen)))
      | inr new ↦
          rw (keys-set_error m error entries, new)
            (append_assoc (keys entries) (m ∷ []) _
              ∙ ap (λ ms. keys entries ++ m ∷ ms) (fresh-append (keys entries) m later))
    ]

-- Each error stands under its own message.
abbrev IsKeyed : Entries → Type 0
IsKeyed = All (λ entry. message_of entry.1 ≡ entry.0)

set_error-IsKeyed :
    (error : Option FieldMessage) (entries : Entries)
    → IsKeyed entries
    → IsKeyed (set_error (message_of error) error entries)
unfolding set_error
set_error-IsKeyed error [] h = (refl, tt)
set_error-IsKeyed error ((k, e) ∷ rest) h = elim (Bool-cases (same_message k (message_of error))) [
  | inl same ↦ rw same (sym ((same_message_iff k (message_of error)).0 same), h.1)
  | inr other ↦ rw other (h.0, set_error-IsKeyed error rest h.1)
]

error_map-IsKeyed :
    (errors : List (Option FieldMessage)) (entries : Entries)
    → IsKeyed entries
    → IsKeyed (error_map errors entries)
unfolding error_map
error_map-IsKeyed [] entries h = h
error_map-IsKeyed (error ∷ rest) entries h =
    error_map-IsKeyed rest _ (set_error-IsKeyed error entries h)

messages-IsKeyed :
    (entries : Entries)
    → IsKeyed entries
    → map message_of (map (λ entry. entry.1) entries) ≡ keys entries
messages-IsKeyed [] h = refl
messages-IsKeyed ((k, e) ∷ rest) h = ap₂ (λ m ms. m ∷ ms) h.0 (messages-IsKeyed rest h.1)

filter-true : (ms : List (Option String)) → fresh [] ms ≡ ms
unfolding holds_message
filter-true [] = refl
filter-true (m ∷ ms) = ap (λ rest. m ∷ rest) (filter-true ms)

-- The messages of the errors that a field shows are those that it was given, each once, in the
-- order in which they first came.
pub unique_errors-once :
    (errors : List (Option FieldMessage))
    → map message_of (unique_errors errors) ≡ once (map message_of errors)
unfolding unique_errors
unique_errors-once errors =
    messages-IsKeyed (error_map errors []) (error_map-IsKeyed errors [] tt)
    ∙ (keys-error_map errors [] ∙ filter-true (once (map message_of errors)))
