-- ===== src/App/Mobile.antt =====
-- `useIsMobile` of app/frontend/hooks/use-mobile.ts, over time. The browser is a parameter: whether a
-- window of a width matches the media query, and the event that it sends when the answer changes.
use opanel.Common.{
  ℕ, ◌-◌, ◌≤◌, Bool, true, false, not, Option, some, List, [], ◌∷◌, ltb, if◌then◌else◌, or_else,
  ◌≡◌, refl, ◌↔◌, arith,
}

abbrev pub mobile_breakpoint : ℕ
mobile_breakpoint = 768

-- `(max-width: limit px)`: what CSS says of a width in whole pixels.
pub record MediaQuery : Type 0 where
  pub matches : ℕ → ℕ → Bool
  pub matches_iff : (limit width : ℕ) → (matches limit width ≡ true) ↔ (width ≤ limit)

-- The window, the hook's state (`undefined` before its effect ran) and whether it listens.
pub record Window : Type 0 where
  pub width : ℕ
  pub is_mobile : Option Bool
  pub listening : Bool

pub data WindowEvent : Type 0 where
  mount : WindowEvent
  unmount : WindowEvent
  resize : ℕ → WindowEvent

-- `!!isMobile`
unfoldable pub use_is_mobile : Window → Bool
use_is_mobile w = or_else w.is_mobile false

-- `setIsMobile(window.innerWidth < MOBILE_BREAKPOINT)`
abbrev pub measure : Window → Window
measure w = record w { is_mobile = some (ltb w.width mobile_breakpoint) }

abbrev pub same : Bool → Bool → Bool
same true b = b
same false b = not b

module _ (Q : MediaQuery) where
  -- A resize reaches the listener exactly when the query's answer changes.
  resized : ℕ → Window → Window
  resized width w =
      let moved = record w { width = width } in
      if same (Q.matches (mobile_breakpoint - 1) w.width) (Q.matches (mobile_breakpoint - 1) width)
      then moved
      else if w.listening
      then measure moved
      else moved

  unfoldable pub step : Window → WindowEvent → Window
  unfolding resized
  step w mount = measure (record w { listening = true })
  step w unmount = record w { listening = false }
  step w (resize width) = resized width w

  unfoldable pub steps : Window → List WindowEvent → Window
  unfolding step
  steps w [] = w
  steps w (e ∷ rest) = steps (step w e) rest

  -- While it listens, the hook knows the width.
  abbrev pub IsCurrent : Window → Type 0
  IsCurrent w = w.listening ≡ true → w.is_mobile ≡ some (ltb w.width mobile_breakpoint)

  step-IsCurrent : (w : Window) (e : WindowEvent) → IsCurrent w → IsCurrent (step w e)
  unfolding step
  step-IsCurrent w mount h = λ l. refl
  step-IsCurrent w unmount h = λ l. cc
  step-IsCurrent w (resize width) h =
      λ l. ground (arith, Q.matches_iff 767 w.width, Q.matches_iff 767 width)

  steps-IsCurrent : (w : Window) (es : List WindowEvent) → IsCurrent w → IsCurrent (steps w es)
  unfolding steps
  steps-IsCurrent w [] h = h
  steps-IsCurrent w (e ∷ es) h = steps-IsCurrent (step w e) es (step-IsCurrent w e h)

  -- While the hook is mounted, it says whether the window is narrower than 768 pixels, after any
  -- resizes, although it measures only when the media query's answer changes.
  pub use_is_mobile-steps :
      (w : Window) (es : List WindowEvent)
      → w.listening ≡ false
      → (steps w es).listening ≡ true
      → use_is_mobile (steps w es) ≡ ltb (steps w es).width mobile_breakpoint
  unfolding use_is_mobile
  use_is_mobile-steps w es off on = rw (steps-IsCurrent w es (λ l. cc) on) refl
