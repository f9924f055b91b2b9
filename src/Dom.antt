-- ===== src/Dom.antt =====
-- What a component of app/frontend renders: a tree of React elements, with the attributes of each as
-- a JavaScript object (an ordered association list), and the props that a component is called with.
-- `M` is the type of the effects that event handlers cause.
pub mod Attrs
pub mod Entries
pub mod Press
use Prim.Native.String
use mathlib.Core.Option
use opanel.Common.Decimal.{decimal}
use opanel.Common.{
  ℕ, suc, zero, ◌+◌, ◌/◌, ◌%◌, String, Bool, true, false, not, Option, none, some, List, [], ◌∷◌,
  ◌++◌, map, ltb, ◌===◌, if◌then◌else◌, or_else, is_some, filter,
}

-- What an event hands to its handler: nothing of interest, a flag, a text or numbers.
pub data Arg : Type 0 where
  click : Arg
  flag : Bool → Arg
  typed : String → Arg
  chosen : List ℕ → Arg

-- `event.preventDefault()` is an effect of the event that the handler receives.
pub record Event (M : Type 0) : Type 0 where
  pub prevent_default : List M
  pub value : Arg

-- `Boolean(value)` of the argument.
abbrev pub arg_flag : Arg → Bool
arg_flag click = false
arg_flag (flag b) = b
arg_flag (typed s) = not (s === "")
arg_flag (chosen ns) = true

pub data Value (M : Type 0) : Type 0 where
  undefined : Value M
  str : String → Value M
  num : ℕ → Value M
  minus : ℕ → Value M
  bool : Bool → Value M
  numbers : List ℕ → Value M
  style : List (String × String) → Value M
  handler : (Event M → List M) → Value M

abbrev pub Attrs : Type 0 → Type 0
Attrs M = List (String × Value M)

-- `host` is an element of HTML; `foreign` is a component of a package (radix-ui, Inertia, an icon),
-- which stays an element that is not looked into.
pub data Tag : Type 0 where
  host : String → Tag
  foreign : String → Tag

-- `nothing` is `null`, `undefined` or `false`; children in a row are joined.
pub data Node (M : Type 0) : Type 0 where
  nothing : Node M
  text : String → Node M
  element : Tag → Attrs M → Node M → Node M
  join : Node M → Node M → Node M

-- A component destructures `className`; the other props are spread, `children` among them.
pub record Props (M : Type 0) : Type 0 where
  pub class_name : Option String
  pub attrs : Attrs M
  pub children : Node M

module _ {ℓ} {V : Type ℓ} where
  -- `object[key]`
  unfoldable pub get : String → List (String × V) → Option V
  get key [] = none
  get key ((k, v) ∷ rest) = if k === key then some v else get key rest

  abbrev pub has : String → List (String × V) → Bool
  has key object = is_some (get key object)

  abbrev pub override : List (String × V) → List (String × V) → List (String × V)
  override [] extra = []
  override ((k, v) ∷ own) extra = (k, or_else (get k extra) v) ∷ override own extra

  -- `{ ...own, ...extra }`: a key of both keeps its place and takes the later value.
  unfoldable pub spread : List (String × V) → List (String × V) → List (String × V)
  unfolding get
  spread own extra = override own extra ++ filter (λ entry. not (has entry.0 own)) extra

  -- The attributes of a prop that may be absent.
  abbrev pub optional : String → Option V → List (String × V)
  optional key none = []
  optional key (some v) = (key, v) ∷ []

-- `Boolean(value)` of a text that may be absent.
abbrev pub given_text : Option String → Bool
given_text none = false
given_text (some s) = not (s === "")

-- `node ? … : null`: an absent node and an empty text do not hold.
abbrev pub node_holds : {M : Type 0} → Node M → Bool
node_holds nothing = false
node_holds (text s) = not (s === "")
node_holds (element tag attrs children) = true
node_holds (join a b) = true

-- A prop that a later spread may give again.
abbrev pub first_given {ℓ} : {A : Type ℓ} → Option A → Option A → Option A
first_given none b = b
first_given (some a) b = some a

-- A template literal.
abbrev pub template : List String → String
template [] = ""
template (s ∷ rest) = String.◌++◌ s (template rest)

abbrev pub show_bool : Bool → String
show_bool true = "true"
show_bool false = "false"

-- The texts of a tree, in the order in which they are read.
unfoldable pub texts : {M : Type 0} → Node M → List String
texts nothing = []
texts (text s) = s ∷ []
texts (element tag attrs children) = texts children
texts (join a b) = texts a ++ texts b

module _ {M : Type 0} where
  -- Children in a row, and an array of children.
  abbrev pub many : List (Node M) → Node M
  many [] = nothing
  many (n ∷ rest) = join n (many rest)

  -- `condition ? node : null`
  abbrev pub show_if : Bool → Node M → Node M
  show_if true node = node
  show_if false node = nothing

  -- `node ?? other`, where the node is absent.
  abbrev pub or_node : Node M → Node M → Node M
  or_node nothing other = other
  or_node (text s) other = text s
  or_node (element tag attrs children) other = element tag attrs children
  or_node (join a b) other = join a b

  abbrev pub number : ℕ → Node M
  number n = text (decimal n)

  -- `{...props}` where `className` is not destructured and so is among the props.
  abbrev pub all_attrs : Props M → Attrs M
  all_attrs p = optional "className" (Option.map str p.class_name) ++ p.attrs

  -- An attribute whose value may be absent: a key with the value `undefined`.
  abbrev pub opt_str : Option String → Value M
  opt_str none = undefined
  opt_str (some s) = str s

  abbrev pub opt_bool : Option Bool → Value M
  opt_bool none = undefined
  opt_bool (some b) = bool b

  abbrev pub opt_num : Option ℕ → Value M
  opt_num none = undefined
  opt_num (some n) = num n

  abbrev pub opt_value : Option (Value M) → Value M
  opt_value none = undefined
  opt_value (some v) = v

  -- `value ? a : b` on an attribute: `undefined`, an empty text, 0 and `false` do not hold.
  abbrev pub truthy : Option (Value M) → Bool
  truthy none = false
  truthy (some undefined) = false
  truthy (some (str s)) = not (s === "")
  truthy (some (num n)) = ltb 0 n
  truthy (some (minus n)) = ltb 0 n
  truthy (some (bool b)) = b
  truthy (some (numbers ns)) = true
  truthy (some (style s)) = true
  truthy (some (handler h)) = true

  -- An element with the caller's props spread last, so that they win.
  abbrev pub jsx : Tag → Attrs M → Props M → Node M
  jsx tag own p = element tag (spread own p.attrs) p.children

  -- The attributes of the element at the root.
  abbrev pub root_attrs : Node M → Attrs M
  root_attrs nothing = []
  root_attrs (text s) = []
  root_attrs (element tag attrs children) = attrs
  root_attrs (join a b) = []

  abbrev pub root_tag : Node M → Option Tag
  root_tag nothing = none
  root_tag (text s) = none
  root_tag (element tag attrs children) = some tag
  root_tag (join a b) = none

  abbrev pub root_children : Node M → Node M
  root_children nothing = nothing
  root_children (text s) = nothing
  root_children (element tag attrs children) = children
  root_children (join a b) = nothing

  -- How many elements of a tree pass a test.
  unfoldable pub count : (Tag → Attrs M → Bool) → Node M → ℕ
  count test nothing = 0
  count test (text s) = 0
  count test (element tag attrs children) = (if test tag attrs then 1 else 0) + count test children
  count test (join a b) = count test a + count test b

  -- Runs the handler that an element has under a name; an element without one does nothing.
  abbrev pub run_handler : Option (Value M) → Event M → List M
  run_handler (some (handler f)) e = f e
  run_handler _ e = []

  abbrev pub fire : String → Node M → Event M → List M
  fire name node e = run_handler (get name (root_attrs node)) e
