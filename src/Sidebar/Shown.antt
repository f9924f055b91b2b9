-- ===== src/Sidebar/Shown.antt =====
-- What the sidebar shows after a session: the provider's states, its context and the view together.
use opanel.Common.{
  Bool, true, false, String, Option, some, List, ◌≡◌, ◌≢◌, refl, sym, ap, ◌∙◌, All, inl, inr,
  if◌then◌else◌, or_else,
}
use opanel.Dom.{Props, str, get, root_attrs}
use opanel.React.{StateHook}
use opanel.Ui.Cn.{ClassLibs}
use opanel.Sidebar.Provider.{
  SidebarState, expanded, collapsed, Effect, ProviderProps, context_value, cookie_text, state_name,
}
use opanel.Sidebar.Session.{Action, Page, hooks_of, session}
use opanel.Sidebar.Cookie.{IsUncontrolled, CookieAgrees, session-CookieAgrees}
use opanel.Sidebar.Toggle.{cookie_text-not}
use opanel.Sidebar.View.{sidebar, is_collapsed}
use opanel.Sidebar.Behaviour.{sidebar_collapsible}

cookie_text_injective : (a b : Bool) → some (cookie_text a) ≡ some (cookie_text b) → a ≡ b
cookie_text_injective true true e = refl
cookie_text_injective false false e = refl
cookie_text_injective true false e = absurd (cookie_text-not false e)
cookie_text_injective false true e = absurd (cookie_text-not true e)

-- What a page's cookie says, the page's state is.
agreed :
    (page : Page) (b : Bool)
    → CookieAgrees page
    → page.cookie ≡ some (cookie_text b)
    → page.internal ≡ b
agreed page b (inl unwritten) h = cc
agreed page b (inr written) h = cookie_text_injective page.internal b (sym written ∙ h)

-- The state of the context for a sidebar that is open or not, and how the view reads it.
state_of : Bool → SidebarState
state_of b = if b then expanded else collapsed

state_of-name : (b : Bool) → state_name (state_of b) ≡ (if b then "expanded" else "collapsed")
unfolding state_of
state_of-name true = refl
state_of-name false = refl

state_of-mode :
    (b : Bool) (mode : String)
    → (if is_collapsed (state_of b) then mode else "") ≡ (if b then "" else mode)
unfolding state_of
state_of-mode true mode = refl
state_of-mode false mode = refl

context-state :
    {U : Type 0} (props : ProviderProps U) (page : Page) (b : Bool)
    → IsUncontrolled props
    → page.internal ≡ b
    → (context_value props (hooks_of page false)).state ≡ state_of b
unfolding context_value state_of
context-state props page b own h = rw (own.0, h) refl

context-wide :
    {U : Type 0} (props : ProviderProps U) (page : Page)
    → (context_value props (hooks_of page false)).is_mobile ≡ false
unfolding context_value
context-wide props page = refl

-- After any session of a sidebar that no owner controls, from a page whose cookie agrees with it or is
-- not written yet: whatever the cookie then says is what the next render shows in a wide window, by its
-- state and by how it collapses, for a sidebar that can collapse.
pub session-shown :
    {U : Type 0} (L : ClassLibs) (R : StateHook Bool) (page : Page)
    (rounds : List (ProviderProps U × Bool × List Action)) (props : ProviderProps U) (b : Bool)
    (side variant collapsible dir : Option String) (p : Props (Effect U))
    → All (λ round. IsUncontrolled round.0) rounds
    → CookieAgrees page
    → IsUncontrolled props
    → (session R page rounds).cookie ≡ some (cookie_text b)
    → or_else collapsible "offcanvas" ≢ "none"
    → let context = context_value props (hooks_of (session R page rounds) false) in
      let shown = root_attrs (sidebar L context side variant collapsible dir p) in
      (get "data-state" shown ≡ some (str (if b then "expanded" else "collapsed")))
      × (get "data-collapsible" shown
          ≡ some (str (if b then "" else or_else collapsible "offcanvas")))
session-shown L R page rounds props b side variant collapsible dir p free h own says can =
    let last = session R page rounds in
    let is_b = agreed last b (session-CookieAgrees R page rounds free h) says in
    let narrow = context-wide props last in
    let shown =
      sidebar_collapsible L (context_value props (hooks_of last false)) side variant collapsible dir
        p can narrow in
    let state = context-state props last b own is_b in
    (
      shown.0
          ∙ ap (λ s. some (str (state_name s))) state
          ∙ ap (λ s. some (str s)) (state_of-name b),
      shown.1
          ∙ ap (λ s. some (str (if is_collapsed s then or_else collapsible "offcanvas" else "")))
              state
          ∙ ap (λ s. some (str s)) (state_of-mode b (or_else collapsible "offcanvas")),
    )
