-- ===== src/Spec/States.antt =====
-- spec/frontend/support/universal-states.ts and render-state.tsx. What the testing library does with a
-- rendered tree is written out: `getByTestId` wants exactly one element of the id, `querySelector` looks
-- below an element and `closest` at it and above it, where a test has nothing but bare containers.
pub mod Accepts
use opanel.Common.{
  String, Bool, true, false, ◌||◌, Option, none, some, List, [], ◌∷◌, ◌++◌, ◌===◌, if◌then◌else◌,
  is_some,
}
use opanel.Dom.{Attrs, Node, Value, nothing, text, element, join, host, str, get}
use opanel.Dom.Entries.{says}

pub data UniversalState : Type 0 where
  loading : UniversalState
  empty : UniversalState
  no_permission : UniversalState
  offline : UniversalState
  stale : UniversalState
  operation_running : UniversalState
  partial_failure : UniversalState
  deleted : UniversalState

pub record StateContract : Type 0 where
  pub test_id : String
  pub role : Option String
  pub rule : String

abbrev pub universal_states : UniversalState → StateContract
universal_states loading = record {
  test_id = "state-loading";
  role = some "status";
  rule = "Skeleton of the structure, not a full-page spinner outside bootstrap.";
}
universal_states empty = record {
  test_id = "state-empty";
  role = none;
  rule = "Explain the value and offer a contextual call to action.";
}
universal_states no_permission = record {
  test_id = "state-no-permission";
  role = some "alert";
  rule = "Explain the restriction without leaking the data behind it.";
}
universal_states offline = record {
  test_id = "state-offline";
  role = some "alert";
  rule = "Preserve the last reading with its timestamp; block mutations.";
}
universal_states stale = record {
  test_id = "state-stale";
  role = none;
  rule = "Show \"last observed …\". Never claim Healthy without a recent observation.";
}
universal_states operation_running = record {
  test_id = "state-operation-running";
  role = none;
  rule = "The primary action is disabled or replaced while the operation runs.";
}
universal_states partial_failure = record {
  test_id = "state-partial-failure";
  role = some "alert";
  rule = "Show the parts: \"7/8 replicas healthy\", never a bare \"failed\".";
}
universal_states deleted = record {
  test_id = "state-deleted";
  role = none;
  rule = "Read-only during the retention window.";
}

abbrev pub state_test_id : UniversalState → String
state_test_id state = (universal_states state).test_id

abbrev pub state_rule : UniversalState → String
state_rule state = (universal_states state).rule

module _ {M : Type 0} where
  -- The elements that have an attribute with a value: their attributes and what is below them.
  unfoldable pub elements_with : String → String → Node M → List (Attrs M × Node M)
  unfolding get
  elements_with key value nothing = []
  elements_with key value (text s) = []
  elements_with key value (element tag attrs children) =
      let below = elements_with key value children in
      if says (get key attrs) value then (attrs, children) ∷ below else below
  elements_with key value (join a b) = elements_with key value a ++ elements_with key value b

  abbrev pub only : List (Attrs M × Node M) → Option (Attrs M × Node M)
  only (found ∷ []) = some found
  only _ = none

  unfoldable pub get_by_test_id : String → Node M → Option (Attrs M × Node M)
  unfolding elements_with
  get_by_test_id id tree = only (elements_with "data-testid" id tree)

  abbrev pub some_element : List (Attrs M × Node M) → Bool
  some_element [] = false
  some_element (found ∷ rest) = true

  -- `region.querySelector(…) ?? region.closest(…)` finds an element.
  unfoldable pub exposes : String → Attrs M × Node M → Bool
  unfolding elements_with get
  exposes role region =
      some_element (elements_with "role" role region.1) || says (get "role" region.0) role

  unfoldable pub exposes_role : Option String → Attrs M × Node M → Bool
  unfolding exposes
  exposes_role none region = true
  exposes_role (some role) region = if role === "" then true else exposes role region

  unfoldable pub region_passes : Option String → Option (Attrs M × Node M) → Bool
  unfolding exposes_role
  region_passes role none = false
  region_passes role (some region) = exposes_role role region

  -- Whether the helper returns; it throws otherwise.
  unfoldable pub expect_state_rendered : UniversalState → Node M → Bool
  unfolding get_by_test_id region_passes
  expect_state_rendered state ui =
      let contract = universal_states state in
      region_passes contract.role (
        get_by_test_id contract.test_id
          (element (host "div") (("data-testid", str contract.test_id) ∷ []) ui))
