-- ===== src/React.antt =====
-- React's `useState`, which the components call and the repository does not hold: a parameter, with
-- its documented behaviour as laws. A setter queues an update, a value or an updater function, and
-- the next render sees the queued updates applied in their order.
use opanel.Common.{◌≡◌, refl, List, [], ◌∷◌, ◌++◌}

pub data SetState (A : Type 0) : Type 0 where
  to_value : A → SetState A
  updater : (A → A) → SetState A

-- What one update makes of a state: `typeof value === 'function' ? value(open) : value`.
abbrev pub resolve : {A : Type 0} → A → SetState A → A
resolve a (to_value b) = b
resolve a (updater f) = f a

pub record StateHook (A : Type 0) : Type 0 where
  pub commit : A → List (SetState A) → A
  pub commit_nil : (a : A) → commit a [] ≡ a
  pub commit_value : (a b : A) (us : List (SetState A)) → commit a (us ++ to_value b ∷ []) ≡ b
  pub commit_updater :
      (a : A) (f : A → A) (us : List (SetState A))
      → commit a (us ++ updater f ∷ []) ≡ f (commit a us)

-- An implementation of the interface: the updates one after another.
pub replay : {A : Type 0} → A → List (SetState A) → A
replay a [] = a
replay a (u ∷ us) = replay (resolve a u) us

pub replay-append_one :
    {A : Type 0} (a : A) (us : List (SetState A)) (u : SetState A)
    → replay a (us ++ u ∷ []) ≡ resolve (replay a us) u
unfolding replay
replay-append_one a [] u = refl
replay-append_one a (v ∷ us) u = replay-append_one (resolve a v) us u

pub replay-nil : {A : Type 0} (a : A) → replay a [] ≡ a
unfolding replay
replay-nil a = refl

abbrev pub replaying : (A : Type 0) → StateHook A
replaying A = record {
  commit = replay;
  commit_nil = replay-nil;
  commit_value = λ a b us. replay-append_one a us (to_value b);
  commit_updater = λ a f us. replay-append_one a us (updater f);
}
