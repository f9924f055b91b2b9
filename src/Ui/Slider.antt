-- ===== src/Ui/Slider.antt =====
-- `Slider` of app/frontend/components/ui/slider/slider.tsx, with values that are natural numbers.
-- `toLocaleString('pt-BR')` is a parameter.
pub mod Values
pub mod View
use mathlib.Core.Option
use opanel.Common.{
  ℕ, zero, suc, Bool, true, false, not, ◌&&◌, ◌||◌, ◌==◌, String, Option, none, some, is_some, List,
  [], ◌∷◌, ◌++◌, map, length, if◌then◌else◌, or_else,
}
use opanel.Dom.{
  Arg, Attrs, Event, Node, Value, nothing, text, element, join, host, foreign, str, num, numbers,
  handler, undefined, many, show_if, spread,
}
use opanel.Ui.Cn.{ClassLibs, cn, lit, given}

-- An array: which object it is, for a comparison by `Object.is`, and what is in it.
pub record Array : Type 0 where
  pub identity : ℕ
  pub items : List ℕ

-- `initialValue?: number | number[]`
pub data InitialValue : Type 0 where
  one : ℕ → InitialValue
  several : Array → InitialValue

-- What a change of the values does: it sets the internal ones and tells the owner.
pub data SliderEffect (M : Type 0) : Type 0 where
  set_internal_values : List ℕ → SliderEffect M
  owner : M → SliderEffect M

pub record SliderProps (M : Type 0) : Type 0 where
  pub class_name : Option String
  pub default_value : Option Array
  pub initial_value : Option InitialValue
  pub on_value_change : Option (List ℕ → List M)
  pub orientation : Option String
  pub show_value : Option Bool
  pub value : Option Array
  pub min : Option ℕ
  pub max : Option ℕ
  pub format_value : Option (ℕ → Node (SliderEffect M))

abbrev pub least : {M : Type 0} → SliderProps M → ℕ
least props = or_else props.min 0

-- What `useMemo` computes: an array of the caller's, or one that it makes anew.
pub data Resolved : Type 0 where
  given_array : Array → Resolved
  new_array : List ℕ → Resolved

abbrev pub items_of : Resolved → List ℕ
items_of (given_array array) = array.items
items_of (new_array items) = items

abbrev default_values : Option InitialValue → Option Array → ℕ → Resolved
default_values (some (several values)) default_value min = given_array values
default_values (some (one value)) default_value min = new_array (value ∷ [])
default_values none (some values) min = given_array values
default_values none none min = new_array (min ∷ [])

-- `resolvedDefaultValue`, computed
unfoldable pub resolved_default_value : {M : Type 0} → SliderProps M → Resolved
resolved_default_value props = default_values props.initial_value props.default_value (least props)

-- A dependency of a hook, as far as `Object.is` tells it from others.
pub data Dependency : Type 0 where
  absent : Dependency
  primitive : ℕ → Dependency
  object : ℕ → Dependency

abbrev pub same_dependency : Dependency → Dependency → Bool
same_dependency absent absent = true
same_dependency (primitive a) (primitive b) = a == b
same_dependency (object a) (object b) = a == b
same_dependency _ _ = false

abbrev pub array_dependency : Option Array → Dependency
array_dependency none = absent
array_dependency (some array) = object array.identity

abbrev pub initial_dependency : Option InitialValue → Dependency
initial_dependency none = absent
initial_dependency (some (one value)) = primitive value
initial_dependency (some (several array)) = object array.identity

-- `[defaultValue, initialValue, min]`
abbrev pub memo_dependencies : {M : Type 0} → SliderProps M → Dependency × Dependency × Dependency
memo_dependencies props = (
  array_dependency props.default_value,
  initial_dependency props.initial_value,
  primitive (least props),
)

abbrev pub same_dependencies :
    Dependency × Dependency × Dependency → Dependency × Dependency × Dependency → Bool
same_dependencies (a, b, c) (d, e, f) =
    same_dependency a d && same_dependency b e && same_dependency c f

-- Whether an array that was computed anew is the one before: an array that was made is a new one.
abbrev pub same_resolved : Resolved → Resolved → Bool
same_resolved (given_array a) (given_array b) = a.identity == b.identity
same_resolved _ _ = false

-- A slider with the props of its last render, the memoised array of that render, and the state.
pub record Slider (M : Type 0) : Type 0 where
  pub props : SliderProps M
  pub resolved : Resolved
  pub internal_values : List ℕ

-- A render with the effect after it, or a call of `handleValueChange`.
pub data SliderEvent (M : Type 0) : Type 0 where
  render : SliderProps M → SliderEvent M
  change : List ℕ → SliderEvent M

module _ {M : Type 0} where
  -- The effect after the first render sets what the state has already.
  unfoldable pub mounted : SliderProps M → Slider M
  unfolding resolved_default_value
  mounted props = record {
    props = props;
    resolved = resolved_default_value props;
    internal_values = items_of (resolved_default_value props);
  }

  -- `currentValues`
  unfoldable pub current_values : Slider M → List ℕ
  current_values slider =
      or_else (Option.map (λ array. array.items) slider.props.value) slider.internal_values

  -- `useMemo`: the array of the last render, if the dependencies are the same.
  unfoldable pub memoised : Slider M → SliderProps M → Resolved
  unfolding resolved_default_value
  memoised slider props =
      if same_dependencies (memo_dependencies slider.props) (memo_dependencies props)
      then slider.resolved
      else resolved_default_value props

  -- Whether `resolvedDefaultValue` is the array that it was in the last render.
  unfoldable pub same_memo : Slider M → SliderProps M → Bool
  unfolding resolved_default_value
  same_memo slider props =
      same_dependencies (memo_dependencies slider.props) (memo_dependencies props)
      || same_resolved slider.resolved (resolved_default_value props)

  -- The effect runs when one of `[resolvedDefaultValue, value]` is another one than before.
  unfoldable pub effect_runs : Slider M → SliderProps M → Bool
  unfolding same_memo
  effect_runs slider props = not (
      same_memo slider props
      && same_dependency (array_dependency slider.props.value) (array_dependency props.value))

  unfoldable pub rendered : Slider M → SliderProps M → Slider M
  unfolding memoised effect_runs
  rendered slider props = record {
    props = props;
    resolved = memoised slider props;
    internal_values =
        if effect_runs slider props && not (is_some props.value)
        then items_of (memoised slider props)
        else slider.internal_values;
  }

  -- `handleValueChange`
  unfoldable pub handle_value_change : SliderProps M → List ℕ → List (SliderEffect M)
  handle_value_change props values =
      set_internal_values values
      ∷ map owner (or_else (Option.map (λ f. f values) props.on_value_change) [])

  -- What the effects of `handleValueChange` do to the slider: `owner` is outside of it.
  unfoldable pub apply_effects : List (SliderEffect M) → Slider M → Slider M
  apply_effects [] slider = slider
  apply_effects (set_internal_values values ∷ rest) slider =
      apply_effects rest (record slider { internal_values = values })
  apply_effects (owner m ∷ rest) slider = apply_effects rest slider

  unfoldable pub step : Slider M → SliderEvent M → Slider M
  unfolding rendered handle_value_change apply_effects
  step slider (render props) = rendered slider props
  step slider (change values) = apply_effects (handle_value_change slider.props values) slider

  unfoldable pub steps : Slider M → List (SliderEvent M) → Slider M
  unfolding step
  steps slider [] = slider
  steps slider (event ∷ rest) = steps (step slider event) rest
