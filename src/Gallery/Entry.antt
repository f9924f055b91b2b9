-- ===== src/Gallery/Entry.antt =====
-- The types and the demonstrations of app/frontend/components/features/gallery/registry.tsx. The
-- elements of an entry are what React is handed: a component of the library stays an element, known by
-- its name, until it is rendered.
use opanel.Common.{String, Bool, List, ℕ, [], ◌∷◌}
use opanel.Dom.{
  Attrs, Node, Arg, click, flag, typed, chosen, nothing, element, foreign, str, num, bool, numbers,
  handler, arg_flag,
}
use opanel.React.{SetState}

pub data GalleryCategory : Type 0 where
  ui : GalleryCategory
  shared : GalleryCategory
  layouts : GalleryCategory

-- `render` takes no argument: it is what it returns.
pub record GalleryEntry (M : Type 0) : Type 0 where
  pub name : String
  pub category : GalleryCategory
  pub render : Node M

-- The numbers that `onValueChange` of a slider is called with.
abbrev pub arg_numbers : Arg → List ℕ
arg_numbers click = []
arg_numbers (flag b) = []
arg_numbers (typed s) = []
arg_numbers (chosen ns) = ns

module _ {M : Type 0} where
  -- `<Name …>…</Name>`
  abbrev pub component : String → Attrs M → Node M → Node M
  component name attrs children = element (foreign name) attrs children

-- A render with the state `on`; the first has `false`.
unfoldable pub controlled_switch : Bool → Node (SetState Bool)
controlled_switch on =
    component "Switch"
      (("checked", bool on)
        ∷ ("onCheckedChange", handler λ e. SetState.to_value (arg_flag e.value) ∷ [])
        ∷ ("aria-label", str "Toggle example")
        ∷ [])
      nothing

-- A render with the state `value`; the first has `[40]`.
unfoldable pub controlled_slider : List ℕ → Node (SetState (List ℕ))
controlled_slider value =
    component "Slider"
      (("value", numbers value)
        ∷ ("onValueChange", handler λ e. SetState.to_value (arg_numbers e.value) ∷ [])
        ∷ ("max", num 100)
        ∷ ("step", num 1)
        ∷ ("className", str "w-64")
        ∷ ("aria-label", str "CPU limit")
        ∷ [])
      nothing
