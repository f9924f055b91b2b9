-- ===== src/Spec/States/Accepts.antt =====
-- What the helper of spec/frontend/support/render-state.tsx accepts.
use opanel.Common.{
  String, Bool, true, false, not, ◌&&◌, ◌||◌, Option, none, some, List, [], ◌∷◌, ◌≡◌, refl, ap, ◌∙◌,
  ◌===◌,
}
use opanel.Dom.{Attrs, Node, str, get}
use opanel.Spec.States.{
  UniversalState, loading, empty, no_permission, offline, stale, operation_running, partial_failure,
  deleted, universal_states, elements_with, only, get_by_test_id, some_element, exposes,
  exposes_role, region_passes, expect_state_rendered,
}

or_false : (b : Bool) → (b || false) ≡ b
or_false true = refl
or_false false = refl

module _ {M : Type 0} where
  -- Whether an element of a tree has an attribute with a value.
  abbrev pub bears : String → String → Node M → Bool
  bears key value tree = some_element (elements_with key value tree)

  abbrev pub bears_role : Option String → Node M → Bool
  bears_role none tree = true
  bears_role (some role) tree = bears "role" role tree

  passes-only :
      (role : Option String) (region : Attrs M × Node M) (others : List (Attrs M × Node M))
      → region_passes role (only (region ∷ others))
        ≡ (not (some_element others) && exposes_role role region)
  unfolding region_passes exposes_role
  passes-only role region [] = refl
  passes-only role region (other ∷ rest) = refl

  passes-role :
      (id role : String) (ui : Node M)
      → (role === "") ≡ false
      → exposes_role (some role) (("data-testid", str id) ∷ [], ui) ≡ bears "role" role ui
  unfolding exposes_role exposes get
  passes-role id role ui h = rw h (or_false (bears "role" role ui))

  passes-with_role :
      (id role : String) (ui : Node M)
      → (role === "") ≡ false
      → region_passes
          (some role)
          (only ((("data-testid", str id) ∷ [], ui) ∷ elements_with "data-testid" id ui))
        ≡ (not (bears "data-testid" id ui) && bears "role" role ui)
  passes-with_role id role ui h =
      passes-only (some role) (("data-testid", str id) ∷ [], ui) (elements_with "data-testid" id ui)
      ∙ ap (λ b. not (bears "data-testid" id ui) && b) (passes-role id role ui h)

-- For a state with a role the helper accepts what has an element of that role and none of the state's
-- test id; for a state without one it accepts everything that has no element of the state's test id, the
-- empty rendering included: the test id that it finds is always its own.
pub expect_state_rendered-bears :
    {M : Type 0} (state : UniversalState) (ui : Node M)
    → expect_state_rendered state ui ≡ (
        not (bears "data-testid" (universal_states state).test_id ui)
        && bears_role (universal_states state).role ui)
unfolding expect_state_rendered get_by_test_id elements_with get
expect_state_rendered-bears loading ui = passes-with_role "state-loading" "status" ui refl
expect_state_rendered-bears empty ui =
    passes-only none (("data-testid", str "state-empty") ∷ [], ui)
      (elements_with "data-testid" "state-empty" ui)
expect_state_rendered-bears no_permission ui =
    passes-with_role "state-no-permission" "alert" ui refl
expect_state_rendered-bears offline ui = passes-with_role "state-offline" "alert" ui refl
expect_state_rendered-bears stale ui =
    passes-only none (("data-testid", str "state-stale") ∷ [], ui)
      (elements_with "data-testid" "state-stale" ui)
expect_state_rendered-bears operation_running ui =
    passes-only none (("data-testid", str "state-operation-running") ∷ [], ui)
      (elements_with "data-testid" "state-operation-running" ui)
expect_state_rendered-bears partial_failure ui =
    passes-with_role "state-partial-failure" "alert" ui refl
expect_state_rendered-bears deleted ui =
    passes-only none (("data-testid", str "state-deleted") ∷ [], ui)
      (elements_with "data-testid" "state-deleted" ui)
