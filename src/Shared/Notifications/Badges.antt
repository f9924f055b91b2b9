-- ===== src/Shared/Notifications/Badges.antt =====
-- What the menu of app/frontend/components/shared/notifications/notifications.tsx shows as a whole: the
-- two badges agree with the list.
use opanel.Common.{
  ℕ, String, none, some, List, [], ◌∷◌, ◌++◌, ltb, or_else, if◌then◌else◌, All, ◌≡◌, refl, ap, ◌∙◌,
  arith, Bool-cases, inl, inr,
}
use mathlib.Core.List.{append-nil}
use opanel.Common.Decimal.{decimal}
use opanel.Dom.{Node, texts, show_if, element, host, Attrs, many, number, text}
use opanel.Ui.Cn.{ClassLibs}
use opanel.Ui.Part.{part}
use opanel.Ui.Icons.{icon}
use opanel.Ui.Avatar.{avatar, avatar_fallback}
use opanel.Ui.Badge.{badge}
use opanel.Ui.Button.{button}
use opanel.Ui.DropdownMenu.{
  dropdown_menu, dropdown_menu_content, dropdown_menu_item, dropdown_menu_separator,
  dropdown_menu_trigger,
}
use opanel.Shared.Notifications.{NotificationsProps, badge_text, total_unread, notification_list}
use opanel.Shared.Notifications.Menu.{
  notifications_trigger, view_all, notifications_content, notifications,
}
use opanel.Shared.Notifications.Unread.{IsDotless, dots, total_unread-dots}

-- The text on the button for a number of unread notifications, and the one beside the label.
abbrev pub on_button : ℕ → List String
on_button n = if ltb 99 n then "99+" ∷ [] else if ltb 0 n then decimal n ∷ [] else []

abbrev pub beside_label : ℕ → List String
beside_label n = if ltb 0 n then decimal n ∷ " novas" ∷ [] else []

texts-badge :
    {M : Type 0} (attrs : Attrs M) (n : ℕ)
    → texts (show_if (ltb 0 n) (element (host "span") attrs (badge_text n))) ≡ on_button n
unfolding texts
texts-badge attrs n = elim (Bool-cases (ltb 0 n)) [
  | inl some_unread ↦ elim (Bool-cases (ltb 99 n)) [
    | inl over ↦ rw (some_unread, over) refl
    | inr few ↦ rw (some_unread, few) refl
  ]
  | inr none_unread ↦ elim (Bool-cases (ltb 99 n)) [
    | inl over ↦ absurd (ground (arith, none_unread, over))
    | inr few ↦ rw (none_unread, few) refl
  ]
]

texts-new :
    (M : Type 0) (L : ClassLibs) (n : ℕ)
    → texts (
        show_if (ltb 0 n) (
          badge {M = M} L (some "secondary") none (record {
            class_name = none;
            attrs = [];
            children = many (number n ∷ text " novas" ∷ []);
          })))
      ≡ beside_label n
unfolding texts badge part
texts-new M L n = elim (Bool-cases (ltb 0 n)) [
  | inl some_unread ↦ rw some_unread refl
  | inr none_unread ↦ rw none_unread refl
]

module _ {M : Type 0} (L : ClassLibs) where
  texts-trigger :
      (p : NotificationsProps M) (n : ℕ) (label : String)
      → texts (notifications_trigger L p n label) ≡ on_button n
  unfolding texts notifications_trigger button avatar avatar_fallback dropdown_menu_trigger part
      icon
  texts-trigger p n label = append-nil _ ∙ texts-badge _ n

  abbrev list_of : NotificationsProps M → Node M
  list_of p =
      notification_list L p.on_notification_select
        (or_else p.empty_label "Nenhuma notificação recente.") (or_else p.notifications [])

  texts-content :
      (p : NotificationsProps M) (n : ℕ) (label : String)
      → texts (notifications_content L p n label)
        ≡ label
          ∷ (beside_label n
              ++ (texts (list_of p) ++ or_else p.view_all_label "Ver todas as notificações" ∷ []))
  unfolding texts notifications_content dropdown_menu_content dropdown_menu_separator view_all
      dropdown_menu_item part icon
  texts-content p n label =
      ap
        (λ shown.
          label
          ∷ (shown
              ++ (texts (list_of p) ++ or_else p.view_all_label "Ver todas as notificações" ∷ [])))
        (append-nil _ ∙ texts-new M L n)

  total-dots :
      (p : NotificationsProps M)
      → All IsDotless (or_else p.notifications [])
      → total_unread p.unread_count (or_else p.notifications [])
        ≡ or_else p.unread_count (dots (list_of p))
  total-dots p h =
      elim p.unread_count
        as (λ o. total_unread o (or_else p.notifications []) ≡ or_else o (dots (list_of p))) [
          | none ↦ total_unread-dots L p.on_notification_select _ (or_else p.notifications []) h
          | some n ↦ refl
        ]

  -- The number of unread notifications is the caller's, or else the number of unread dots in the list,
  -- when the titles, descriptions and times have no such dots of their own. The button shows it up to 99,
  -- then `99+`, and nothing if it is zero; below the button come the label, the number of the new ones if
  -- there are any, the list and the link to all.
  pub notifications-texts :
      (p : NotificationsProps M)
      → All IsDotless (or_else p.notifications [])
      → let list =
          notification_list L p.on_notification_select
            (or_else p.empty_label "Nenhuma notificação recente.")
            (or_else p.notifications []) in
        let unread = or_else p.unread_count (dots list) in
        texts (notifications L p)
        ≡ on_button unread
          ++ (or_else p.label "Notificações"
              ∷ (beside_label unread
                  ++ (texts list ++ or_else p.view_all_label "Ver todas as notificações" ∷ [])))
  unfolding texts notifications dropdown_menu
  notifications-texts p h =
      rw
        (
          texts-trigger p _ (or_else p.label "Notificações"),
          texts-content p _ (or_else p.label "Notificações"),
          total-dots p h,
        )
        (ap (λ rest. on_button (or_else p.unread_count (dots (list_of p))) ++ rest) (append-nil _))
