-- ===== src/Shared/Profile.antt =====
-- `Profile` of app/frontend/components/shared/profile/profile.tsx. `text_of` writes a list of code
-- units as a text to be shown.
pub mod Actions
use mathlib.Core.Option
use opanel.Common.{Bool, true, false, String, Option, none, some, List, [], ◌∷◌, or_else}
use opanel.Common.Codes.{Text}
use opanel.Dom.{
  node_holds, given_text, Attrs, Event, Node, Props, Value, nothing, text, element, host, foreign,
  str, num, bool, handler, many, show_if, template,
}
use opanel.Ui.Cn.{ClassLibs, cn, lit, given}
use opanel.Ui.Avatar.{avatar, avatar_fallback, avatar_image}
use opanel.Ui.Button.{button}
use opanel.Ui.DropdownMenu.{
  dropdown_menu, dropdown_menu_content, dropdown_menu_group, dropdown_menu_item,
  dropdown_menu_label, dropdown_menu_separator, dropdown_menu_trigger,
}
use opanel.Shared.Initials.{get_initials}
use opanel.Shared.Notifications.{styled}

pub record ProfileProps (M : Type 0) : Type 0 where
  pub name : Text
  pub email : String
  pub avatar_src : Option String
  pub avatar_alt : Option String
  pub fallback : Option String
  pub settings_label : Option String
  pub logout_label : Option String
  pub on_settings : Option (List M)
  pub on_logout : Option (List M)
  pub disabled : Option Bool
  pub side : Option String
  pub align : Option String
  pub class_name : Option String
  pub content_class_name : Option String

-- A component without props of its own but its children.
abbrev pub bare : {M : Type 0} → Node M → Props M
bare children = record { class_name = none; attrs = []; children = children }

module _ {M : Type 0} (L : ClassLibs) (text_of : Text → String) (p : ProfileProps M) where
  abbrev pub fallback_shown : String
  fallback_shown = or_else p.fallback (text_of (get_initials p.name))

  unfoldable pub render_avatar : Node M
  unfolding avatar avatar_image avatar_fallback
  render_avatar = avatar L none (
      styled "size-10 shrink-0 rounded-md after:rounded-md" [] (
        many (
          show_if (given_text p.avatar_src) (
            avatar_image L (
              styled "rounded-md"
                (("src", str (or_else p.avatar_src ""))
                  ∷ ("alt", str (or_else p.avatar_alt (text_of p.name)))
                  ∷ [])
                nothing))
          ∷ avatar_fallback L (styled "rounded-md text-base font-medium" [] (text fallback_shown))
          ∷ [])))

  abbrev names : String → String → Node M
  names class email_class = element (host "div") (("className", str class) ∷ []) (
      many (
        element (host "span") (("className", str "truncate text-lg font-medium") ∷ [])
          (text (text_of p.name))
        ∷ element (host "span") (("className", str email_class) ∷ []) (text p.email)
        ∷ []))

  unfoldable pub profile_trigger : Node M
  unfolding button dropdown_menu_trigger
  profile_trigger = dropdown_menu_trigger L (record {
    class_name = none;
    attrs = ("asChild", bool true) ∷ [];
    children = button L (some "ghost") none none (
        styled
          (cn L (
            lit
              "h-14 w-full min-w-0 justify-start gap-3 overflow-hidden rounded-md p-2 text-left transition-colors hover:bg-sidebar-accent hover:text-sidebar-accent-foreground aria-expanded:bg-sidebar-accent aria-expanded:text-sidebar-accent-foreground data-[state=open]:bg-sidebar-accent data-[state=open]:text-sidebar-accent-foreground dark:hover:bg-sidebar-accent group-data-[collapsible=icon]:size-10! group-data-[collapsible=icon]:justify-center group-data-[collapsible=icon]:p-0!"
            ∷ given p.class_name
            ∷ []))
          (("type", str "button")
            ∷ ("disabled", bool (or_else p.disabled false))
            ∷ ("aria-label", str (template ("Abrir menu de " ∷ text_of p.name ∷ [])))
            ∷ ("title", str (template (text_of p.name ∷ " — " ∷ p.email ∷ [])))
            ∷ [])
          (many (
            render_avatar
            ∷ names "grid min-w-0 flex-1 leading-tight group-data-[collapsible=icon]:hidden"
                "truncate text-base font-normal text-inherit opacity-70"
            ∷ element (foreign "ChevronsUpDown")
                (("aria-hidden", str "true")
                  ∷ ("className", str "ml-auto group-data-[collapsible=icon]:hidden")
                  ∷ [])
                nothing
            ∷ [])));
  })

  -- `() => action?.()`
  abbrev on_select : Option (List M) → Value M
  on_select action = handler (λ e. or_else action [])

  unfoldable pub settings_item : Node M
  unfolding dropdown_menu_item
  settings_item = dropdown_menu_item L none none (
      styled "cursor-pointer rounded-md px-2 py-2" (("onSelect", on_select p.on_settings) ∷ []) (
        many (
          element (foreign "Settings") (("aria-hidden", str "true") ∷ []) nothing
          ∷ text (or_else p.settings_label "Configurações")
          ∷ [])))

  unfoldable pub logout_item : Node M
  unfolding dropdown_menu_item
  logout_item = dropdown_menu_item L none (some "destructive") (
      styled "cursor-pointer rounded-md px-2 py-2" (("onSelect", on_select p.on_logout) ∷ []) (
        many (
          element (foreign "LogOut") (("aria-hidden", str "true") ∷ []) nothing
          ∷ text (or_else p.logout_label "Sair")
          ∷ [])))

  unfoldable pub profile_content : Node M
  unfolding dropdown_menu_content dropdown_menu_label dropdown_menu_separator dropdown_menu_group
  profile_content = dropdown_menu_content L (some (or_else p.align "end")) (some 8) (
      styled (cn L (lit "min-w-64 rounded-md" ∷ given p.content_class_name ∷ []))
        (("side", str (or_else p.side "right")) ∷ [])
        (many (
          dropdown_menu_label L none (
            styled "p-2 font-normal" [] (
              element (host "div") (("className", str "flex items-center gap-3") ∷ []) (
                many (
                  render_avatar
                  ∷ names "grid min-w-0 flex-1 leading-tight"
                      "truncate text-base font-normal text-popover-foreground/70"
                  ∷ []))))
          ∷ dropdown_menu_separator L (bare nothing)
          ∷ dropdown_menu_group L (bare settings_item)
          ∷ dropdown_menu_separator L (bare nothing)
          ∷ logout_item
          ∷ [])))

  unfoldable pub profile : Node M
  unfolding dropdown_menu
  profile = dropdown_menu L (bare (many (profile_trigger ∷ profile_content ∷ [])))
