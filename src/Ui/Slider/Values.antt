-- ===== src/Ui/Slider/Values.antt =====
-- Which values a slider shows over a sequence of renders and changes.
use mathlib.Core.Option
use opanel.Common.{
  ℕ, Bool, true, false, ◌&&◌, Option, none, some, List, [], ◌∷◌, ◌++◌, map, length, ◌===◌, ◌==◌,
  ◌≡◌, refl, sym, ap, ◌∙◌, arith, All, Bool-cases, inl, inr, if◌then◌else◌, or_else,
}
use opanel.Dom.{Attrs, Tag, foreign, host, count, many}
use opanel.Ui.Slider.{
  array_dependency, least, Resolved, given_array, new_array, same_resolved, InitialValue,
  initial_dependency, one, several, Dependency, absent, primitive, object, SliderProps,
  SliderEffect, Slider, SliderEvent, owner, render, change, memo_dependencies, same_dependency,
  same_dependencies, current_values, memoised, same_memo, effect_runs, rendered,
  handle_value_change, apply_effects, step, steps, resolved_default_value,
}
use opanel.Ui.Slider.View.{slider_root, thumb}

same_dependency_refl : (a : Dependency) → same_dependency a a ≡ true
same_dependency_refl absent = refl
same_dependency_refl (primitive n) = ground arith
same_dependency_refl (object n) = ground arith

same_dependencies_refl : (d : Dependency × Dependency × Dependency) → same_dependencies d d ≡ true
same_dependencies_refl (a, b, c) =
    rw (same_dependency_refl a, same_dependency_refl b, same_dependency_refl c) refl

-- Whether an initial value is a number.
abbrev pub is_number : ℕ → Option InitialValue → Bool
is_number n none = false
is_number n (some (one m)) = m == n
is_number n (some (several array)) = false

initial_dependency-is_number :
    (n : ℕ) (initial : Option InitialValue)
    → (same_dependency (initial_dependency initial) (primitive n) && true) ≡ is_number n initial
initial_dependency-is_number n none = refl
initial_dependency-is_number n (some (one m)) = ground arith
initial_dependency-is_number n (some (several array)) = refl

same_resolved-new :
    (before : Resolved) (items : List ℕ) → same_resolved before (new_array items) ≡ false
same_resolved-new (given_array a) items = refl
same_resolved-new (new_array a) items = refl

module _ {M : Type 0} where
  -- Props of an uncontrolled slider with the dependencies of other props.
  abbrev pub IsLike : SliderProps M → SliderProps M → Type 0
  IsLike base props = (memo_dependencies props ≡ memo_dependencies base) × (props.value ≡ none)

  -- The props with another initial value.
  abbrev pub starting_at : ℕ → SliderProps M → SliderProps M
  starting_at n props = record props { initial_value = some (one n) }

  abbrev pub starts_at : ℕ → SliderProps M → Bool
  starts_at n props = is_number n props.initial_value

  steps-append :
      (slider : Slider M) (a b : List (SliderEvent M))
      → steps slider (a ++ b) ≡ steps (steps slider a) b
  unfolding steps
  steps-append slider [] b = refl
  steps-append slider (e ∷ a) b = steps-append (step slider e) a b

  apply-owner : (ms : List M) (slider : Slider M) → apply_effects (map owner ms) slider ≡ slider
  unfolding apply_effects
  apply-owner [] slider = refl
  apply-owner (m ∷ ms) slider = apply-owner ms slider

  -- A change sets the state, whatever the owner does with it.
  step-change :
      (slider : Slider M) (values : List ℕ)
      → step slider (change values) ≡ record slider { internal_values = values }
  unfolding step apply_effects handle_value_change
  step-change slider values =
      apply-owner (or_else (Option.map (λ f. f values) slider.props.on_value_change) [])
        (record slider { internal_values = values })

  steps-change :
      (slider : Slider M) (values : List ℕ) (rest : List (SliderEvent M))
      → steps slider (change values ∷ rest)
        ≡ steps (record slider { internal_values = values }) rest
  unfolding steps
  steps-change slider values rest = ap (λ s. steps s rest) (step-change slider values)

  -- A render with the same dependencies leaves the state as it was.
  render-like :
      (slider : Slider M) (props : SliderProps M)
      → IsLike slider.props props
      → slider.props.value ≡ none
      → step slider (render props) ≡ record slider { props = props }
  unfolding step rendered memoised effect_runs same_memo
  render-like slider props like free =
      let same =
        ap (same_dependencies (memo_dependencies slider.props)) like.0
        ∙ same_dependencies_refl (memo_dependencies slider.props) in
      rw (same, like.1, free) refl

  -- A slider that is uncontrolled, with the dependencies of these props and these values.
  abbrev Holds : SliderProps M → List ℕ → Slider M → Type 0
  Holds base values slider = IsLike base slider.props × (slider.internal_values ≡ values)

  -- The state stays over any renders with the same dependencies.
  steps-Holds :
      (base : SliderProps M) (values : List ℕ) (slider : Slider M) (after : List (SliderProps M))
      → Holds base values slider
      → All (IsLike base) after
      → Holds base values (steps slider (map render after))
  unfolding steps
  steps-Holds base values slider [] holds like = holds
  steps-Holds base values slider (props ∷ rest) holds like =
      rw (steps, render-like slider props (like.0.0 ∙ sym holds.0.0, like.0.1) holds.0.1)
        (steps-Holds base values (record slider { props = props }) rest (like.0, holds.1) like.1)

  starting_at-dependencies :
      (n : ℕ) (base : SliderProps M)
      → same_dependencies (memo_dependencies base) (memo_dependencies (starting_at n base))
        ≡ starts_at n base
  starting_at-dependencies n base =
      rw
        (
          same_dependency_refl (array_dependency base.default_value),
          same_dependency_refl (primitive (least base)),
        )
        (initial_dependency-is_number n base.initial_value)

  -- A render with another initial number makes the state that number, and one with the same leaves it.
  render-starting :
      (n : ℕ) (base : SliderProps M) (values : List ℕ) (slider : Slider M)
      → base.value ≡ none
      → Holds base values slider
      → current_values (step slider (render (starting_at n base)))
        ≡ (if starts_at n base then values else n ∷ [])
  unfolding current_values step rendered memoised effect_runs same_memo resolved_default_value
  render-starting n base values slider free holds =
      let same =
        ap (λ d. same_dependencies d (memo_dependencies (starting_at n base))) holds.0.0
        ∙ starting_at-dependencies n base in
      elim (Bool-cases (starts_at n base)) [
        | inl hit ↦ rw (same, hit, free, holds.0.1) holds.1
        | inr miss ↦ rw (same, miss, free, same_resolved-new slider.resolved (n ∷ [])) refl
      ]

  -- The last change of an uncontrolled slider stays over any renders with the same dependencies, whatever
  -- happened before and whatever the owner does with it; and a render after them with a number as the
  -- initial value shows that number instead, unless it was the initial value already.
  pub current_values-kept :
      (slider : Slider M) (before : List (SliderEvent M)) (values : List ℕ)
      (after : List (SliderProps M)) (n : ℕ)
      → let base = (steps slider before).props in
        base.value ≡ none
        → All (IsLike base) after
        → let used = steps slider (before ++ change values ∷ map render after) in
          (current_values used ≡ values)
          × (current_values (step used (render (starting_at n base)))
              ≡ (if starts_at n base then values else n ∷ []))
  unfolding current_values
  current_values-kept slider before values after n free like =
      let base = (steps slider before).props in
      let changed = record (steps slider before) { internal_values = values } in
      let holds = steps-Holds base values changed after ((refl, free), refl) like in
      let run =
        steps-append slider before (change values ∷ map render after)
        ∙ steps-change (steps slider before) values (map render after) in
      rw run (rw holds.0.1 holds.1, render-starting n base values _ free holds)

  abbrev pub is_thumb : Tag → Attrs (SliderEffect M) → Bool
  is_thumb (foreign name) attrs = name === "Slider.Thumb"
  is_thumb (host name) attrs = false

count-thumbs :
    (M : Type 0) (values : List ℕ)
    → count is_thumb (many (map (λ (value : ℕ). thumb {M = M}) values)) ≡ length values
unfolding count
count-thumbs M [] = refl
count-thumbs M (value ∷ values) = omega (arith, count-thumbs M values)

module _ {M : Type 0} where
  -- A slider has a thumb for each of the values that it shows.
  pub slider_root-thumbs :
      (slider : Slider M) (rest : Attrs (SliderEffect M))
      → count is_thumb (slider_root slider rest) ≡ length (current_values slider)
  unfolding slider_root count current_values
  slider_root-thumbs slider rest = omega (arith, count-thumbs M (current_values slider))
