-- ===== src/Tests.antt =====
-- The theorems at concrete inputs, and runs of the definitions.
pub mod Controls
pub mod DataTables
pub mod Galleries
pub mod Recordings
pub mod Screens
use opanel.Common.{
  Bool, true, false, ℕ, ◌≤◌, none, some, List, [], ◌∷◌, ◌≡◌, refl, arith, inl, ◌≢◌, eq_iff,
}
use opanel.Dom.{Event, Arg, Props, str, get, fire, root_attrs, run_handler, nothing}
use opanel.Dom.Press.{first_attr}
use opanel.React.{replaying}
use opanel.Ui.Cn.{ClassLibs}
use opanel.Sidebar.Shown.{session-shown}
use opanel.Sidebar.Provider.{
  Effect, context_value, ProviderProps, SidebarContext, collapsed, cookie_text, current_open,
}
use opanel.Sidebar.Session.{
  Action, toggle, open_to, press, Page, hooks_of, perform, owner_calls, batch, session,
}
use opanel.Sidebar.Cookie.{CookieAgrees, session-CookieAgrees}
use opanel.Sidebar.Toggle.{toggled, batch-toggle_twice, batch-press, toggle_owned}
use opanel.Sidebar.View.{sidebar, sidebar_trigger}
use opanel.Sidebar.MenuButton.{caption, sidebar_menu_button, skeleton_width}
use opanel.Sidebar.Behaviour.{
  sidebar_trigger_click, sidebar_menu_button_click, skeleton_width_bounds,
}

-- Packages that leave the classes out.
abbrev plain_libs : ClassLibs
plain_libs = record {
  clsx = λ inputs. "";
  tw_merge = λ s. s;
  cva = λ config selection extra. config.base;
}

abbrev free_props : ProviderProps ℕ
free_props = record {
  default_open = none;
  open_prop = none;
  on_open_change = none;
  class_name = none;
  styles = [];
  attrs = [];
  children = nothing;
}

abbrev bool_label : Bool → List ℕ
bool_label true = 1 ∷ []
bool_label false = 0 ∷ []

abbrev owned_props : ProviderProps ℕ
owned_props = record free_props { open_prop = some true; on_open_change = some bool_label }

abbrev fresh_page : Page
fresh_page = record { internal = true; mobile = false; cookie = none }

abbrev two_rounds : List (ProviderProps ℕ × Bool × List Action)
two_rounds =
    (free_props, false, toggle ∷ press "b" false true ∷ [])
    ∷ (free_props, true, toggle ∷ open_to true ∷ [])
    ∷ []

session-CookieAgrees_example : CookieAgrees (session (replaying Bool) fresh_page two_rounds)
session-CookieAgrees_example =
    session-CookieAgrees (replaying Bool) fresh_page two_rounds ((refl, refl), ((refl, refl), tt))
      (inl refl)

batch-toggle_twice_example :
    batch (replaying Bool) free_props fresh_page false (toggle ∷ toggle ∷ [])
    ≡ toggled free_props fresh_page false
batch-toggle_twice_example = batch-toggle_twice (replaying Bool) fresh_page free_props false

batch-press_example :
    batch (replaying Bool) free_props fresh_page true (press "b" true false ∷ [])
    ≡ toggled free_props fresh_page true
batch-press_example = batch-press (replaying Bool) fresh_page free_props true "b" true false

toggle_owned_example :
    let after = batch (replaying Bool) owned_props fresh_page false (toggle ∷ []) in
    (owner_calls (perform owned_props (hooks_of fresh_page false) toggle) ≡ 0 ∷ [])
    × (after.internal ≡ true)
    × (current_open owned_props (hooks_of after false) ≡ true)
    × (after.cookie ≡ some (cookie_text false))
    × (after.cookie ≢ some (cookie_text true))
toggle_owned_example =
    toggle_owned (replaying Bool) fresh_page owned_props true bool_label refl refl

abbrev context : SidebarContext ℕ
context = record {
  state = collapsed;
  is_open = false;
  set_open = λ v. 5 ∷ [];
  open_mobile = false;
  set_open_mobile = λ v. 6 ∷ [];
  is_mobile = false;
  toggle_sidebar = 7 ∷ [];
}

abbrev event : Event ℕ
event = record { prevent_default = 9 ∷ []; value = Arg.click }

abbrev no_props : Props ℕ
no_props = record { class_name = none; attrs = []; children = nothing }

sidebar_menu_button_click_example :
    run_handler
      (first_attr "onClick" (
        sidebar_menu_button plain_libs context none none none none
          (some (caption "Nós"))
          (some (3 ∷ []))
          (some (λ e. 4 ∷ []))
          no_props))
      event
    ≡ 9 ∷ 3 ∷ []
sidebar_menu_button_click_example =
    sidebar_menu_button_click plain_libs context none none none none (some (caption "Nós"))
      (some (3 ∷ [])) (some (λ e. 4 ∷ [])) no_props event

abbrev effect_props : Props (Effect ℕ)
effect_props = record { class_name = none; attrs = []; children = nothing }

two_rounds-cookie :
    (session (replaying Bool) fresh_page two_rounds).cookie ≡ some (cookie_text true)
unfolding session
two_rounds-cookie = refl

session-shown_example :
    let shown = root_attrs (
      sidebar plain_libs
        (context_value free_props (hooks_of (session (replaying Bool) fresh_page two_rounds) false))
        none
        none
        (some "icon")
        none
        effect_props) in
    (get "data-state" shown ≡ some (str "expanded"))
    × (get "data-collapsible" shown ≡ some (str ""))
session-shown_example =
    session-shown plain_libs (replaying Bool) fresh_page two_rounds free_props true none none
      (some "icon") none effect_props ((refl, refl), ((refl, refl), tt)) (inl refl) (refl, refl)
      two_rounds-cookie (ground (arith, eq_iff "icon" "none"))

skeleton_width_bounds_example : (50 ≤ skeleton_width 999 1000) × (skeleton_width 999 1000 ≤ 89)
skeleton_width_bounds_example = skeleton_width_bounds 999 1000 (omega arith)

cookie_text_runs : cookie_text true ≡ "sidebar_state=true; path=/; max-age=604800"
unfolding cookie_text
cookie_text_runs = refl
