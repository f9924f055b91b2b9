-- ===== src/Shared/Notifications/Menu.antt =====
-- `Notifications` of app/frontend/components/shared/notifications/notifications.tsx: the button with
-- the count of what is unread, and the menu.
use mathlib.Core.Option
use opanel.Common.{ℕ, true, false, String, none, some, [], ◌∷◌, ltb, or_else, if◌then◌else◌}
use opanel.Dom.{
  Node, nothing, text, element, host, str, bool, handler, undefined, many, show_if, number,
  template,
}
use opanel.Common.Decimal.{decimal}
use opanel.Ui.Cn.{ClassLibs, cn, lit, given}
use opanel.Ui.Icons.{icon}
use opanel.Ui.Avatar.{avatar, avatar_fallback}
use opanel.Ui.Badge.{badge}
use opanel.Ui.Button.{button}
use opanel.Ui.DropdownMenu.{
  dropdown_menu, dropdown_menu_content, dropdown_menu_item, dropdown_menu_separator,
  dropdown_menu_trigger,
}
use opanel.Shared.Notifications.{
  NotificationsProps, styled, badge_text, total_unread, notification_list,
}

abbrev pub trigger_label : ℕ → String → String
trigger_label total label =
    if ltb 0 total then template (label ∷ ": " ∷ decimal total ∷ " não lidas" ∷ []) else label

module _ {M : Type 0} (L : ClassLibs) where
  unfoldable pub notifications_trigger : NotificationsProps M → ℕ → String → Node M
  unfolding button avatar avatar_fallback dropdown_menu_trigger
  notifications_trigger p total label = dropdown_menu_trigger L (record {
    class_name = none;
    attrs = ("asChild", bool true) ∷ [];
    children = button L (some "ghost") (some "icon") none (
        styled
          (cn L (
            lit
              "relative size-11 rounded-full p-0 hover:bg-app-shell-accent hover:text-app-shell-accent-foreground aria-expanded:bg-app-shell-accent aria-expanded:text-app-shell-accent-foreground"
            ∷ given p.class_name
            ∷ []))
          (("type", str "button")
            ∷ ("disabled", bool (or_else p.disabled false))
            ∷ ("aria-label", str (trigger_label total label))
            ∷ ("title", str label)
            ∷ [])
          (many (
            avatar L none (
              styled "size-10" [] (
                avatar_fallback L
                  (styled "bg-secondary text-secondary-foreground" [] (icon "notification" []))))
            ∷ show_if (ltb 0 total) (
                element (host "span")
                  ((
                    "className",
                    str
                        "absolute -top-1 -right-1 flex h-5 min-w-5 items-center justify-center rounded-full bg-danger px-1 text-xs font-medium text-danger-foreground",
                  )
                    ∷ [])
                  (badge_text total))
            ∷ [])));
  })

  -- The link below the list.
  unfoldable pub view_all : NotificationsProps M → Node M
  unfolding dropdown_menu_item
  view_all p = dropdown_menu_item L none none (
      styled "rounded-md p-0" (("asChild", bool true) ∷ []) (
        element (host "a")
          (("href", str (or_else p.view_all_href "#notificacoes"))
            ∷ (
              "className",
              str
                  "flex w-full cursor-pointer items-center justify-center gap-2 px-4 py-3 font-medium text-primary",
            )
            ∷ ("onClick", or_else (Option.map (λ ms. handler (λ e. ms)) p.on_view_all) undefined)
            ∷ [])
          (many (
            text (or_else p.view_all_label "Ver todas as notificações")
            ∷ icon "chevronRight" []
            ∷ []))))

  unfoldable pub notifications_content : NotificationsProps M → ℕ → String → Node M
  unfolding dropdown_menu_content dropdown_menu_separator badge
  notifications_content p total label =
      dropdown_menu_content L (some (or_else p.align "end")) (some 8) (
        styled
          (cn L (
            lit "w-96 max-w-[calc(100vw-2rem)] rounded-md p-0 shadow-2xl shadow-primary/30"
            ∷ given p.content_class_name
            ∷ []))
          (("side", str (or_else p.side "bottom")) ∷ [])
          (many (
            element (host "div")
              (("className", str "flex items-center justify-between gap-3 px-4 py-3") ∷ [])
              (many (
                element (host "div") (("className", str "text-lg font-medium") ∷ []) (text label)
                ∷ show_if (ltb 0 total) (
                    badge L (some "secondary") none (record {
                      class_name = none;
                      attrs = [];
                      children = many (number total ∷ text " novas" ∷ []);
                    }))
                ∷ []))
            ∷ dropdown_menu_separator L (styled "m-0" [] nothing)
            ∷ element (host "div") (("className", str "max-h-96 overflow-y-auto p-1") ∷ []) (
                notification_list L p.on_notification_select
                  (or_else p.empty_label "Nenhuma notificação recente.")
                  (or_else p.notifications []))
            ∷ dropdown_menu_separator L (styled "m-0" [] nothing)
            ∷ view_all p
            ∷ [])))

  unfoldable pub notifications : NotificationsProps M → Node M
  unfolding dropdown_menu
  notifications p =
      let total = total_unread p.unread_count (or_else p.notifications []) in
      let label = or_else p.label "Notificações" in
      dropdown_menu L (record {
        class_name = none;
        attrs = [];
        children =
            many (notifications_trigger p total label ∷ notifications_content p total label ∷ []);
      })
