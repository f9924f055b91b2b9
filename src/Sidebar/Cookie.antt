-- ===== src/Sidebar/Cookie.antt =====
-- The cookie and the state of a sidebar that no owner controls.
use opanel.Common.{
  Bool, not, Option, none, some, List, [], ◌∷◌, ◌++◌, ◌≡◌, refl, ◌∙◌, ap, ◌⊎◌, inl, inr, Bool-cases,
  String, ◌===◌, sym, ◌&&◌, ◌||◌, All,
}
use mathlib.Core.List.{append_assoc}
use opanel.React.{SetState, to_value, updater, StateHook, resolve}
use opanel.Sidebar.Provider.{
  Effect, set_internal, set_mobile, owner, write_cookie, prevent_default, ProviderProps, Hooks,
  set_open, toggle_sidebar, handle_key_down, cookie_text, current_open, sidebar_keyboard_shortcut,
}
use opanel.Sidebar.Session.{
  Action, toggle, open_to, mobile_to, press, Page, hooks_of, perform, perform_all, internal_updates,
  cookie_after, commit_effects, batch, session,
}

abbrev pub IsUncontrolled : {U : Type 0} → ProviderProps U → Type 0
IsUncontrolled props = (props.open_prop ≡ none) × (props.on_open_change ≡ none)

-- Nothing was written yet, or the cookie says what the sidebar is.
abbrev pub CookieAgrees : Page → Type 0
CookieAgrees page = (page.cookie ≡ none) ⊎ (page.cookie ≡ some (cookie_text page.internal))

module _ {U : Type 0} where
  internal_updates-append :
      (a b : List (Effect U)) → internal_updates (a ++ b) ≡ internal_updates a ++ internal_updates b
  internal_updates-append [] b = refl
  internal_updates-append (set_internal u ∷ a) b = ap (λ us. u ∷ us) (internal_updates-append a b)
  internal_updates-append (set_mobile u ∷ a) b = internal_updates-append a b
  internal_updates-append (owner u ∷ a) b = internal_updates-append a b
  internal_updates-append (write_cookie c ∷ a) b = internal_updates-append a b
  internal_updates-append (prevent_default ∷ a) b = internal_updates-append a b

  cookie_after-append :
      (c : Option String) (a b : List (Effect U))
      → cookie_after c (a ++ b) ≡ cookie_after (cookie_after c a) b
  cookie_after-append c [] b = refl
  cookie_after-append c (set_internal u ∷ a) b = cookie_after-append c a b
  cookie_after-append c (set_mobile u ∷ a) b = cookie_after-append c a b
  cookie_after-append c (owner u ∷ a) b = cookie_after-append c a b
  cookie_after-append c (write_cookie w ∷ a) b = cookie_after-append (some w) a b
  cookie_after-append c (prevent_default ∷ a) b = cookie_after-append c a b

  -- The effects leave both the state and the cookie alone, or set both to one value at their end.
  record IsQuiet (es : List (Effect U)) : Type 0 where
    unchanged : internal_updates es ≡ []
    unwritten : (c : Option String) → cookie_after c es ≡ c

  record IsSettled (es : List (Effect U)) : Type 0 where
    before : List (SetState Bool)
    last : Bool
    updates : internal_updates es ≡ before ++ to_value last ∷ []
    written : (c : Option String) → cookie_after c es ≡ some (cookie_text last)

  abbrev InStep : List (Effect U) → Type 0
  InStep es = IsQuiet es ⊎ IsSettled es

  append-InStep : (a b : List (Effect U)) → InStep a → InStep b → InStep (a ++ b)
  append-InStep a b (inl p) (inl q) = inl (record {
    unchanged = internal_updates-append a b ∙ rw (p.unchanged, q.unchanged);
    unwritten = λ c. cookie_after-append c a b ∙ rw (p.unwritten c) (q.unwritten c);
  })
  append-InStep a b (inr p) (inl q) = inr (record {
    before = p.before;
    last = p.last;
    updates = internal_updates-append a b ∙ rw (p.updates, q.unchanged) (append_assoc p.before _ _);
    written = λ c. cookie_after-append c a b ∙ rw (p.written c) (q.unwritten _);
  })
  append-InStep a b p (inr q) = inr (record {
    before = internal_updates a ++ q.before;
    last = q.last;
    updates =
        internal_updates-append a b
        ∙ rw (q.updates) (sym (append_assoc (internal_updates a) q.before _));
    written = λ c. cookie_after-append c a b ∙ q.written _;
  })

  module _ (props : ProviderProps U) (free : IsUncontrolled props) (hooks : Hooks) where
    set_open-InStep : (value : SetState Bool) → InStep (set_open props hooks value)
    unfolding set_open
    set_open-InStep value = rw free.1 (
        inr (record {
          before = [];
          last = resolve (current_open props hooks) value;
          updates = refl;
          written = λ c. refl;
        }))

    toggle-InStep : InStep (toggle_sidebar props hooks)
    unfolding toggle_sidebar
    toggle-InStep = elim (Bool-cases hooks.narrow) [
      | inl narrow ↦ rw narrow (inl (record { unchanged = refl; unwritten = λ c. refl }))
      | inr wide ↦ rw wide (set_open-InStep (updater not))
    ]

    press-InStep :
        (key : String) (meta_key ctrl_key : Bool)
        → InStep (handle_key_down props hooks key meta_key ctrl_key)
    unfolding handle_key_down
    press-InStep key meta_key ctrl_key =
        elim (Bool-cases (key === sidebar_keyboard_shortcut && (meta_key || ctrl_key))) [
          | inl hit ↦ rw hit (
              append-InStep (prevent_default ∷ []) _
                (inl (record { unchanged = refl; unwritten = λ c. refl })) toggle-InStep)
          | inr miss ↦ rw miss (inl (record { unchanged = refl; unwritten = λ c. refl }))
        ]

    perform-InStep : (a : Action) → InStep (perform props hooks a)
    unfolding perform
    perform-InStep toggle = toggle-InStep
    perform-InStep (open_to value) = set_open-InStep (to_value value)
    perform-InStep (mobile_to value) = inl (record { unchanged = refl; unwritten = λ c. refl })
    perform-InStep (press key meta_key ctrl_key) = press-InStep key meta_key ctrl_key

    perform_all-InStep : (actions : List Action) → InStep (perform_all props hooks actions)
    unfolding perform_all
    perform_all-InStep [] = inl (record { unchanged = refl; unwritten = λ c. refl })
    perform_all-InStep (a ∷ rest) =
        append-InStep (perform props hooks a) _ (perform-InStep a) (perform_all-InStep rest)

  module _ (R : StateHook Bool) where
    commit-CookieAgrees :
        (page : Page) (es : List (Effect U))
        → InStep es
        → CookieAgrees page
        → CookieAgrees (commit_effects R page es)
    unfolding commit_effects
    commit-CookieAgrees page es (inl q) h =
        rw (q.unchanged, q.unwritten page.cookie, R.commit_nil page.internal) h
    commit-CookieAgrees page es (inr s) h =
        inr
          (rw (s.updates, s.written page.cookie, R.commit_value page.internal s.last s.before) refl)

    batch-CookieAgrees :
        (props : ProviderProps U) (page : Page) (narrow : Bool) (actions : List Action)
        → IsUncontrolled props
        → CookieAgrees page
        → CookieAgrees (batch R props page narrow actions)
    unfolding batch
    batch-CookieAgrees props page narrow actions free h =
        commit-CookieAgrees page _ (perform_all-InStep props free (hooks_of page narrow) actions) h

-- In a sidebar that no owner controls, whatever its users do, between which renders, and however
-- the window's width changes: a cookie that agrees with the sidebar at the start, or that is not
-- written yet, agrees with it, or is not written yet, at the end.
pub session-CookieAgrees :
    {U : Type 0} (R : StateHook Bool) (page : Page)
    (rounds : List (ProviderProps U × Bool × List Action))
    → All (λ round. IsUncontrolled round.0) rounds
    → CookieAgrees page
    → CookieAgrees (session R page rounds)
unfolding session
session-CookieAgrees R page [] free h = h
session-CookieAgrees R page ((props, narrow, actions) ∷ rest) free h =
    session-CookieAgrees R (batch R props page narrow actions) rest free.1
      (batch-CookieAgrees R props page narrow actions free.0 h)
