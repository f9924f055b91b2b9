-- ===== src/Sidebar/Provider.antt =====
-- `SidebarProvider` and `useSidebar` of app/frontend/components/layouts/sidebar/sidebar.tsx: the
-- closures that one render makes of the hooks' state, and what each of them does when it is called.
use opanel.Common.{
  String, Bool, true, false, not, ◌&&◌, ◌||◌, ℕ, Option, none, some, List, [], ◌∷◌, ◌++◌, map, ◌*◌,
  ◌===◌, if◌then◌else◌, or_else, ◌⊎◌, inl, inr,
}
use opanel.Dom.{Node, Attrs, element, host, str, spread, style, template, show_bool}
use opanel.Common.Decimal.{decimal}
use opanel.React.{SetState, to_value, updater, resolve}
use opanel.Ui.Cn.{ClassLibs, cn, lit, given}
use opanel.Ui.Tooltip.{tooltip_provider}

abbrev pub sidebar_cookie_name : String
sidebar_cookie_name = "sidebar_state"

abbrev pub sidebar_cookie_max_age : ℕ
sidebar_cookie_max_age = 60 * 60 * 24 * 7

abbrev pub sidebar_width : String
sidebar_width = "19.2rem"

abbrev pub sidebar_width_mobile : String
sidebar_width_mobile = "21.6rem"

abbrev pub sidebar_width_icon : String
sidebar_width_icon = "3rem"

abbrev pub sidebar_keyboard_shortcut : String
sidebar_keyboard_shortcut = "b"

pub data SidebarState : Type 0 where
  expanded collapsed : SidebarState

abbrev pub state_name : SidebarState → String
state_name expanded = "expanded"
state_name collapsed = "collapsed"

-- `SidebarContextProps`: a function of the context is the list of effects that a call causes.
pub record SidebarContext (M : Type 0) : Type 0 where
  pub state : SidebarState
  pub is_open : Bool
  pub set_open : SetState Bool → List M
  pub open_mobile : Bool
  pub set_open_mobile : SetState Bool → List M
  pub is_mobile : Bool
  pub toggle_sidebar : List M

-- `useSidebar`: the context, or the error that it throws where there is no provider.
unfoldable pub use_sidebar : {M : Type 0} → Option (SidebarContext M) → String ⊎ SidebarContext M
use_sidebar none = inl "useSidebar must be used within a SidebarProvider."
use_sidebar (some context) = inr context

-- What the provider's functions do: set its two states, call `onOpenChange` (whose effects are the
-- owner's), write `document.cookie`, and `event.preventDefault()`.
pub data Effect (U : Type 0) : Type 0 where
  set_internal : SetState Bool → Effect U
  set_mobile : SetState Bool → Effect U
  owner : U → Effect U
  write_cookie : String → Effect U
  prevent_default : Effect U

-- `open` and `onOpenChange` are the props of a sidebar that its owner controls.
pub record ProviderProps (U : Type 0) : Type 0 where
  pub default_open : Option Bool
  pub open_prop : Option Bool
  pub on_open_change : Option (Bool → List U)
  pub class_name : Option String
  pub styles : List (String × String)
  pub attrs : Attrs (Effect U)
  pub children : Node (Effect U)

-- The states of the hooks at a render.
pub record Hooks : Type 0 where
  pub internal : Bool
  pub mobile : Bool
  pub narrow : Bool

-- `${SIDEBAR_COOKIE_NAME}=${openState}; path=/; max-age=${SIDEBAR_COOKIE_MAX_AGE}`
unfoldable pub cookie_text : Bool → String
unfolding decimal
cookie_text open_state = template (
    sidebar_cookie_name
    ∷ "="
    ∷ show_bool open_state
    ∷ "; path=/; max-age="
    ∷ decimal sidebar_cookie_max_age
    ∷ [])

module _ {U : Type 0} where
  unfoldable pub initial_hooks : ProviderProps U → Bool → Hooks
  initial_hooks props narrow = record {
    internal = or_else props.default_open true;
    mobile = false;
    narrow = narrow;
  }

  -- `openProp ?? _open`
  abbrev pub current_open : ProviderProps U → Hooks → Bool
  current_open props hooks = or_else props.open_prop hooks.internal

  abbrev pub report_open : Option (Bool → List U) → Bool → List (Effect U)
  report_open none open_state = set_internal (to_value open_state) ∷ []
  report_open (some set_open_prop) open_state = map owner (set_open_prop open_state)

  unfoldable pub set_open : ProviderProps U → Hooks → SetState Bool → List (Effect U)
  set_open props hooks value =
      let open_state = resolve (current_open props hooks) value in
      report_open props.on_open_change open_state ++ write_cookie (cookie_text open_state) ∷ []

  unfoldable pub toggle_sidebar : ProviderProps U → Hooks → List (Effect U)
  unfolding set_open
  toggle_sidebar props hooks =
      if hooks.narrow then set_mobile (updater not) ∷ [] else set_open props hooks (updater not)

  unfoldable pub handle_key_down : ProviderProps U → Hooks → String → Bool → Bool → List (Effect U)
  unfolding toggle_sidebar
  handle_key_down props hooks key meta_key ctrl_key =
      if key === sidebar_keyboard_shortcut && (meta_key || ctrl_key)
      then prevent_default ∷ toggle_sidebar props hooks
      else []

  unfoldable pub context_value : ProviderProps U → Hooks → SidebarContext (Effect U)
  unfolding set_open toggle_sidebar
  context_value props hooks = record {
    state = if current_open props hooks then expanded else collapsed;
    is_open = current_open props hooks;
    set_open = set_open props hooks;
    open_mobile = hooks.mobile;
    set_open_mobile = λ value. set_mobile value ∷ [];
    is_mobile = hooks.narrow;
    toggle_sidebar = toggle_sidebar props hooks;
  }

  -- The element that the provider renders around its children.
  unfoldable pub sidebar_provider : ClassLibs → ProviderProps U → Node (Effect U)
  unfolding tooltip_provider
  sidebar_provider L props = tooltip_provider L (some 100) (record {
    class_name = none;
    attrs = [];
    children =
        element (host "div")
          (spread
            (("data-slot", str "sidebar-wrapper")
              ∷ (
                "style",
                style (
                    spread
                      (("--sidebar-width", sidebar_width)
                        ∷ ("--sidebar-width-icon", sidebar_width_icon)
                        ∷ [])
                      props.styles),
              )
              ∷ (
                "className",
                str (
                    cn L (
                      lit
                        "group/sidebar-wrapper flex min-h-svh w-full has-data-[variant=inset]:bg-sidebar"
                      ∷ given props.class_name
                      ∷ [])),
              )
              ∷ [])
            props.attrs)
          props.children;
  })
