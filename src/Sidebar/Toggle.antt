-- ===== src/Sidebar/Toggle.antt =====
-- What toggling the sidebar does, by itself and twice before a render.
use opanel.Common.{
  Bool, true, false, not, Option, none, some, List, [], ◌∷◌, ◌++◌, ◌≡◌, refl, ◌∙◌, ap, map,
  Bool-cases, arith, if◌then◌else◌, or_else, is_some, ◌===◌, ◌&&◌, ◌||◌, String, ◌≢◌, eq_iff, inl,
  inr,
}
use mathlib.Core.List.{append-nil, append_assoc}
use opanel.React.{SetState, to_value, updater, StateHook, resolve}
use opanel.Sidebar.Provider.{
  Effect, owner, write_cookie, report_open, ProviderProps, current_open, cookie_text,
  sidebar_keyboard_shortcut,
}
use opanel.Sidebar.Session.{
  toggle, press, Page, hooks_of, perform, owner_calls, internal_updates, mobile_updates,
  cookie_after, commit_effects, batch,
}

module _ {U : Type 0} where
  module _ (us : List U) (es : List (Effect U)) where
    internal_updates-owner : internal_updates (map owner us ++ es) ≡ internal_updates es
    internal_updates-owner = owned us
      where
        owned : (vs : List U) → internal_updates (map owner vs ++ es) ≡ internal_updates es
        owned [] = refl
        owned (v ∷ vs) = owned vs

    mobile_updates-owner : mobile_updates (map owner us ++ es) ≡ mobile_updates es
    mobile_updates-owner = owned us
      where
        owned : (vs : List U) → mobile_updates (map owner vs ++ es) ≡ mobile_updates es
        owned [] = refl
        owned (v ∷ vs) = owned vs

    cookie_after-owner :
        (c : Option String) → cookie_after c (map owner us ++ es) ≡ cookie_after c es
    cookie_after-owner c = owned us
      where
        owned : (vs : List U) → cookie_after c (map owner vs ++ es) ≡ cookie_after c es
        owned [] = refl
        owned (v ∷ vs) = owned vs

    owner_calls-owner : owner_calls (map owner us ++ es) ≡ us ++ owner_calls es
    owner_calls-owner = owned us
      where
        owned : (vs : List U) → owner_calls (map owner vs ++ es) ≡ vs ++ owner_calls es
        owned [] = refl
        owned (v ∷ vs) = ap (λ ws. v ∷ ws) (owned vs)

-- The page when the sidebar, or the owner that `onOpenChange` reports to, was told to open or close.
abbrev pub opened : {U : Type 0} → Option (Bool → List U) → Page → Bool → Page
opened on_open page target = record page {
  internal = if is_some on_open then page.internal else target;
  cookie = some (cookie_text target);
}

-- The page after one toggle: the mobile sheet flips in a narrow window, else the sidebar.
abbrev pub toggled : {U : Type 0} → ProviderProps U → Page → Bool → Page
toggled props page true = record page { mobile = not page.mobile }
toggled props page false =
    opened props.on_open_change page (not (or_else props.open_prop page.internal))

pub cookie_text-not :
    (b : Bool) → ◌≢◌ {A = Option String} (some (cookie_text (not b))) (some (cookie_text b))
unfolding cookie_text
cookie_text-not true e = ground (arith, eq_iff (cookie_text false) (cookie_text true))
cookie_text-not false e = ground (arith, eq_iff (cookie_text true) (cookie_text false))

not-not : (b : Bool) → not (not b) ≡ b
not-not true = refl
not-not false = refl

module _ (R : StateHook Bool) where
  commit_one : (b : Bool) (u : SetState Bool) → R.commit b (u ∷ []) ≡ resolve b u
  commit_one b (to_value c) = R.commit_value b c []
  commit_one b (updater f) = R.commit_updater b f [] ∙ rw (R.commit_nil b) refl

  commit_two : (b : Bool) (u v : SetState Bool) → R.commit b (u ∷ v ∷ []) ≡ resolve (resolve b u) v
  commit_two b u (to_value c) = R.commit_value b c (u ∷ [])
  commit_two b u (updater f) = R.commit_updater b f (u ∷ []) ∙ ap f (commit_one b u)

module _ {U : Type 0} (R : StateHook Bool) (page : Page) where
  -- What a call of `setOpen` causes.
  abbrev told : Option (Bool → List U) → Bool → List (Effect U)
  told on_open target = report_open on_open target ++ write_cookie (cookie_text target) ∷ []

  commit-told :
      (on_open : Option (Bool → List U)) (target : Bool)
      → commit_effects R page (told on_open target) ≡ opened on_open page target
  unfolding commit_effects
  commit-told none target =
      rw (commit_one R page.internal (to_value target), R.commit_nil page.mobile) refl
  commit-told (some f) target =
      let last : List (Effect U) = write_cookie (cookie_text target) ∷ [] in
      rw
        (
          internal_updates-owner (f target) last,
          mobile_updates-owner (f target) last,
          cookie_after-owner (f target) last page.cookie,
          R.commit_nil page.internal,
          R.commit_nil page.mobile,
        )
        refl

  commit-told_twice :
      (on_open : Option (Bool → List U)) (target : Bool)
      → commit_effects R page (told on_open target ++ told on_open target)
        ≡ opened on_open page target
  unfolding commit_effects
  commit-told_twice none target =
      rw (commit_two R page.internal (to_value target) (to_value target), R.commit_nil page.mobile)
        refl
  commit-told_twice (some f) target =
      let last : List (Effect U) = write_cookie (cookie_text target) ∷ [] in
      let both : List (Effect U) = last ++ (map owner (f target) ++ last) in
      rw
        (
          append_assoc (map owner (f target)) last (map owner (f target) ++ last),
          internal_updates-owner (f target) both,
          mobile_updates-owner (f target) both,
          cookie_after-owner (f target) both page.cookie,
        )
        (rw
          (
            internal_updates-owner (f target) last,
            mobile_updates-owner (f target) last,
            cookie_after-owner (f target) last (some (cookie_text target)),
            R.commit_nil page.internal,
            R.commit_nil page.mobile,
          )
          refl)

  -- One toggle flips the mobile sheet in a narrow window and nothing else; in a wide one it flips
  -- the sidebar, which its owner holds if there is `onOpenChange`, and writes the new state to the
  -- cookie.
  pub batch-toggle :
      (props : ProviderProps U) (narrow : Bool)
      → batch R props page narrow (toggle ∷ []) ≡ toggled props page narrow
  unfolding batch
  batch-toggle props true =
      rw (commit_one R page.mobile (updater not), R.commit_nil page.internal) refl
  batch-toggle props false =
      rw (append-nil (told props.on_open_change (not (or_else props.open_prop page.internal))))
        (commit-told props.on_open_change _)

  -- Two toggles before the next render: in a narrow window they cancel, since the state is flipped
  -- by an updater; in a wide one the second repeats the first, since both read the `open` of one
  -- render.
  pub batch-toggle_twice :
      (props : ProviderProps U) (narrow : Bool)
      → batch R props page narrow (toggle ∷ toggle ∷ [])
        ≡ (if narrow then page else toggled props page false)
  unfolding batch
  batch-toggle_twice props true =
      rw (commit_two R page.mobile (updater not) (updater not), R.commit_nil page.internal)
        (rw (not-not page.mobile) refl)
  batch-toggle_twice props false =
      rw (append-nil (told props.on_open_change (not (or_else props.open_prop page.internal))))
        (commit-told_twice props.on_open_change _)

  -- A key press toggles exactly when it is the shortcut's key with Ctrl or Meta held; any other
  -- press leaves the page as it was.
  pub batch-press :
      (props : ProviderProps U) (narrow : Bool) (key : String) (meta_key ctrl_key : Bool)
      → batch R props page narrow (press key meta_key ctrl_key ∷ []) ≡ (
          if key === sidebar_keyboard_shortcut && (meta_key || ctrl_key)
          then toggled props page narrow
          else page)
  unfolding batch
  batch-press props narrow key meta_key ctrl_key =
      elim (Bool-cases (key === sidebar_keyboard_shortcut && (meta_key || ctrl_key))) [
        | inl hit ↦ rw hit (batch-toggle props narrow)
        | inr miss ↦ rw miss (rw (R.commit_nil page.internal, R.commit_nil page.mobile) refl)
      ]

  -- In a wide window an owner that controls the sidebar hears of one toggle once, with the opposite
  -- of what it shows. The internal state stays, so the sidebar shows what the owner passes next.
  -- The cookie is written all the same, with the state that was asked for: if the owner keeps the
  -- sidebar as it was, they differ.
  pub toggle_owned :
      (props : ProviderProps U) (shown : Bool) (f : Bool → List U)
      → props.open_prop ≡ some shown
      → props.on_open_change ≡ some f
      → let after = batch R props page false (toggle ∷ []) in
        (owner_calls (perform props (hooks_of page false) toggle) ≡ f (not shown))
        × (after.internal ≡ page.internal)
        × (current_open props (hooks_of after false) ≡ shown)
        × (after.cookie ≡ some (cookie_text (not shown)))
        × (after.cookie ≢ some (cookie_text shown))
  unfolding perform
  toggle_owned props shown f controlled owned = (
    rw (owned, controlled)
        (owner_calls-owner (f (not shown)) (write_cookie (cookie_text (not shown)) ∷ [])
          ∙ append-nil _),
    rw (batch-toggle props false, owned) refl,
    rw controlled refl,
    rw (batch-toggle props false, controlled) refl,
    rw (batch-toggle props false, controlled) (cookie_text-not shown),
  )
