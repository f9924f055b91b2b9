-- ===== src/Sidebar/Session.antt =====
-- A provider over time. The calls that event handlers make between two renders see the same
-- closures; React then commits what they queued, and the next render makes new closures.
use opanel.Common.{String, Bool, Option, some, List, [], ◌∷◌, ◌++◌}
use opanel.React.{SetState, StateHook}
use opanel.Sidebar.Provider.{
  Effect, set_internal, set_mobile, owner, write_cookie, prevent_default, ProviderProps, Hooks,
  set_open, toggle_sidebar, handle_key_down,
}

-- What a user or a component does with the context that a render hands out.
pub data Action : Type 0 where
  toggle : Action
  open_to : Bool → Action
  mobile_to : SetState Bool → Action
  press : String → Bool → Bool → Action

-- The state that outlives a render: the hooks' states and the document's cookie.
pub record Page : Type 0 where
  pub internal : Bool
  pub mobile : Bool
  pub cookie : Option String

abbrev pub hooks_of : Page → Bool → Hooks
hooks_of page narrow = record { internal = page.internal; mobile = page.mobile; narrow = narrow }

module _ {U : Type 0} where
  unfoldable pub perform : ProviderProps U → Hooks → Action → List (Effect U)
  unfolding set_open toggle_sidebar handle_key_down
  perform props hooks toggle = toggle_sidebar props hooks
  perform props hooks (open_to value) = set_open props hooks (SetState.to_value value)
  perform props hooks (mobile_to value) = set_mobile value ∷ []
  perform props hooks (press key meta_key ctrl_key) =
      handle_key_down props hooks key meta_key ctrl_key

  unfoldable pub perform_all : ProviderProps U → Hooks → List Action → List (Effect U)
  unfolding perform
  perform_all props hooks [] = []
  perform_all props hooks (a ∷ rest) = perform props hooks a ++ perform_all props hooks rest

  abbrev pub internal_updates : List (Effect U) → List (SetState Bool)
  internal_updates [] = []
  internal_updates (set_internal u ∷ es) = u ∷ internal_updates es
  internal_updates (set_mobile u ∷ es) = internal_updates es
  internal_updates (owner u ∷ es) = internal_updates es
  internal_updates (write_cookie c ∷ es) = internal_updates es
  internal_updates (prevent_default ∷ es) = internal_updates es

  abbrev pub mobile_updates : List (Effect U) → List (SetState Bool)
  mobile_updates [] = []
  mobile_updates (set_internal u ∷ es) = mobile_updates es
  mobile_updates (set_mobile u ∷ es) = u ∷ mobile_updates es
  mobile_updates (owner u ∷ es) = mobile_updates es
  mobile_updates (write_cookie c ∷ es) = mobile_updates es
  mobile_updates (prevent_default ∷ es) = mobile_updates es

  -- The cookie after the writes: the last one stands.
  abbrev pub cookie_after : Option String → List (Effect U) → Option String
  cookie_after c [] = c
  cookie_after c (set_internal u ∷ es) = cookie_after c es
  cookie_after c (set_mobile u ∷ es) = cookie_after c es
  cookie_after c (owner u ∷ es) = cookie_after c es
  cookie_after c (write_cookie w ∷ es) = cookie_after (some w) es
  cookie_after c (prevent_default ∷ es) = cookie_after c es

  -- The calls of `onOpenChange`.
  abbrev pub owner_calls : List (Effect U) → List U
  owner_calls [] = []
  owner_calls (set_internal u ∷ es) = owner_calls es
  owner_calls (set_mobile u ∷ es) = owner_calls es
  owner_calls (owner u ∷ es) = u ∷ owner_calls es
  owner_calls (write_cookie w ∷ es) = owner_calls es
  owner_calls (prevent_default ∷ es) = owner_calls es

  module _ (R : StateHook Bool) where
    unfoldable pub commit_effects : Page → List (Effect U) → Page
    commit_effects page es = record {
      internal = R.commit page.internal (internal_updates es);
      mobile = R.commit page.mobile (mobile_updates es);
      cookie = cookie_after page.cookie es;
    }

    -- The actions between two renders, in a window that is narrow or not.
    unfoldable pub batch : ProviderProps U → Page → Bool → List Action → Page
    unfolding commit_effects perform_all
    batch props page narrow actions =
        commit_effects page (perform_all props (hooks_of page narrow) actions)

    -- A whole session: each batch has the props and the window of its own render.
    unfoldable pub session : Page → List (ProviderProps U × Bool × List Action) → Page
    unfolding batch
    session page [] = page
    session page ((props, narrow, actions) ∷ rest) = session (batch props page narrow actions) rest
