-- ===== src/Shared/Notifications.antt =====
-- `Notifications` and `NotificationContent` of
-- app/frontend/components/shared/notifications/notifications.tsx.
pub mod Badges
pub mod Menu
pub mod Unread
use mathlib.Core.Option
use opanel.Common.{
  ℕ, Bool, true, false, not, String, Option, none, some, List, [], ◌∷◌, map, filter, length, ltb,
  ◌===◌, or_else, if◌then◌else◌, is_some,
}
use opanel.Dom.{
  node_holds, given_text, Attrs, Event, Node, Props, Value, nothing, text, element, join, host, str,
  num, bool, handler, undefined, many, show_if, number, template,
}
use opanel.Common.Decimal.{decimal}
use opanel.Ui.Cn.{ClassLibs, cn, lit, given}
use opanel.Ui.Icons.{icon}
use opanel.Ui.Avatar.{avatar, avatar_fallback, avatar_image}
use opanel.Ui.Badge.{badge}
use opanel.Ui.Button.{button}
use opanel.Ui.DropdownMenu.{
  dropdown_menu, dropdown_menu_content, dropdown_menu_item, dropdown_menu_separator,
  dropdown_menu_trigger,
}

pub record NotificationItem (M : Type 0) : Type 0 where
  pub id : String
  pub title : Node M
  pub description : Option (Node M)
  pub timestamp : Option (Node M)
  pub read : Option Bool
  pub avatar_src : Option String
  pub avatar_alt : Option String
  pub avatar_fallback : Option String
  pub href : Option String

pub record NotificationsProps (M : Type 0) : Type 0 where
  pub notifications : Option (List (NotificationItem M))
  pub label : Option String
  pub empty_label : Option String
  pub view_all_label : Option String
  pub view_all_href : Option String
  pub unread_count : Option ℕ
  pub on_notification_select : Option (NotificationItem M → List M)
  pub on_view_all : Option (List M)
  pub disabled : Option Bool
  pub class_name : Option String
  pub content_class_name : Option String
  pub align : Option String
  pub side : Option String

module _ {M : Type 0} where
  -- The props of an element that is written with a class and attributes.
  abbrev pub styled : String → Attrs M → Node M → Props M
  styled class attrs children = record {
    class_name = some class;
    attrs = attrs;
    children = children;
  }

  abbrev pub is_unread : NotificationItem M → Bool
  is_unread notification = not (or_else notification.read false)

  abbrev pub total_unread : Option ℕ → List (NotificationItem M) → ℕ
  total_unread (some n) notifications = n
  total_unread none notifications = length (filter is_unread notifications)

  abbrev pub badge_text : ℕ → Node M
  badge_text total = if ltb 99 total then text "99+" else number total

  abbrev pub block : Option (Node M) → String → Node M
  block none class = nothing
  block (some node) class =
      show_if (node_holds node) (element (host "div") (("className", str class) ∷ []) node)

  abbrev pub unread_dot : Node M
  unread_dot =
      element (host "span")
        (("className", str "mt-2 size-2 shrink-0 rounded-full bg-primary")
          ∷ ("aria-label", str "Não lida")
          ∷ [])
        nothing

  abbrev pub fallback_of : NotificationItem M → Node M
  fallback_of notification =
      or_else (Option.map text notification.avatar_fallback) (icon "notification" [])

module _ {M : Type 0} (L : ClassLibs) where
  unfoldable pub notification_content : NotificationItem M → Node M
  unfolding avatar avatar_image avatar_fallback
  notification_content notification = many (
      avatar L none (
        styled "size-10 shrink-0" [] (
          many (
            show_if (given_text notification.avatar_src) (
              avatar_image L (record {
                class_name = none;
                attrs =
                    ("src", str (or_else notification.avatar_src ""))
                    ∷ ("alt", str (or_else notification.avatar_alt ""))
                    ∷ [];
                children = nothing;
              }))
            ∷ avatar_fallback L (styled "bg-muted text-foreground" [] (fallback_of notification))
            ∷ [])))
      ∷ element (host "div") (("className", str "min-w-0 flex-1 space-y-1") ∷ []) (
          many (
            element (host "div") (("className", str "flex items-start gap-2") ∷ []) (
              many (
                element (host "span") (("className", str "min-w-0 flex-1 text-lg font-medium") ∷ [])
                  notification.title
                ∷ show_if (is_unread notification) unread_dot
                ∷ []))
            ∷ block notification.description
                "line-clamp-2 text-base font-extralight text-muted-foreground"
            ∷ block notification.timestamp "text-base font-extralight text-muted-foreground"
            ∷ []))
      ∷ [])

  -- One row of the list.
  unfoldable pub notification_row :
      Option (NotificationItem M → List M) → NotificationItem M → Node M
  unfolding dropdown_menu_item
  notification_row on_select notification = dropdown_menu_item L none none (
      styled "cursor-pointer items-start gap-3 rounded-md p-3"
        (("onSelect", handler (λ e. or_else (Option.map (λ f. f notification) on_select) []))
          ∷ ("asChild", bool (given_text notification.href))
          ∷ [])
        (if given_text notification.href
          then element (host "a") (("href", str (or_else notification.href "")) ∷ [])
              (notification_content notification)
          else notification_content notification))

  abbrev pub notification_list :
      Option (NotificationItem M → List M) → String → List (NotificationItem M) → Node M
  notification_list on_select empty_label [] =
      element (host "div")
        (("className", str "px-4 py-8 text-center text-lg font-extralight text-muted-foreground")
          ∷ [])
        (text empty_label)
  notification_list on_select empty_label (notification ∷ rest) =
      many (map (notification_row on_select) (notification ∷ rest))
