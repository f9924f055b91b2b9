-- ===== src/Shared/Notifications/Unread.antt =====
-- The list and the count agree on what is unread.
use mathlib.Core.Option
use opanel.Common.{
  sym, ap, or_else, ℕ, Bool, true, false, Option, none, some, List, [], ◌∷◌, map, filter, length,
  ◌≡◌, refl, ◌===◌, All, arith, String, Bool-cases, inl, inr, if◌then◌else◌,
}
use opanel.Dom.{
  node_holds, given_text, text, Attrs, Event, Node, Tag, Value, str, get, count, fire, nothing,
  many, show_if,
}
use opanel.Ui.Cn.{ClassLibs}
use opanel.Ui.Part.{part}
use opanel.Ui.Icons.{icon}
use opanel.Ui.Avatar.{avatar, avatar_fallback, avatar_image}
use opanel.Ui.DropdownMenu.{dropdown_menu_item}
use opanel.Dom.{spread}
use opanel.Shared.Notifications.{
  NotificationItem, unread_dot, fallback_of, is_unread, total_unread, block, notification_content,
  notification_row, notification_list,
}

module _ {M : Type 0} where
  abbrev pub says_unread : Option (Value M) → Bool
  says_unread (some (str s)) = s === "Não lida"
  says_unread _ = false

  -- Whether an element is the dot of an unread notification.
  abbrev pub is_dot : Tag → Attrs M → Bool
  is_dot tag attrs = says_unread (get "aria-label" attrs)

  abbrev pub dots : Node M → ℕ
  dots node = count is_dot node

  abbrev dots_of : Option (Node M) → ℕ
  dots_of none = 0
  dots_of (some node) = dots node

  -- What the caller gives to be shown has no such dot of its own.
  abbrev pub IsDotless : NotificationItem M → Type 0
  IsDotless n = (dots n.title ≡ 0) × (dots_of n.description ≡ 0) × (dots_of n.timestamp ≡ 0)

  dots-block :
      (node : Option (Node M)) (class : String) → dots_of node ≡ 0 → dots (block node class) ≡ 0
  unfolding count get
  dots-block none class h = refl
  dots-block (some node) class h = elim (Bool-cases (node_holds node)) [
    | inl holds ↦ rw holds (ground (arith, h))
    | inr empty ↦ rw empty refl
  ]

dots-image :
    (M : Type 0) (L : ClassLibs) (src alt : Option String) (b : Bool)
    → dots (
        show_if b (
          avatar_image {M = M} L (record {
            class_name = none;
            attrs = ("src", str (or_else src "")) ∷ ("alt", str (or_else alt "")) ∷ [];
            children = nothing;
          })))
      ≡ 0
unfolding avatar_image part spread count get
dots-image M L src alt true = refl
dots-image M L src alt false = refl

dots-unread_dot :
    (M : Type 0) (b : Bool) → dots (show_if b (unread_dot {M = M})) ≡ (if b then 1 else 0)
unfolding count get
dots-unread_dot M true = refl
dots-unread_dot M false = refl

module _ {M : Type 0} where
  module _ (L : ClassLibs) where
    dots-fallback : (n : NotificationItem M) → dots (fallback_of n) ≡ 0
    unfolding count get icon spread
    dots-fallback n =
        elim n.avatar_fallback
          as (λ o. dots {M = M} (or_else (Option.map text o) (icon "notification" [])) ≡ 0) [
            | none ↦ refl
            | some s ↦ refl
          ]

    dots-content :
        (n : NotificationItem M)
        → IsDotless n
        → dots (notification_content L n) ≡ (if is_unread n then 1 else 0)
    unfolding notification_content count get avatar avatar_image avatar_fallback part spread icon
    dots-content n h = omega (
      arith,
      h.0,
      dots-image M L n.avatar_src n.avatar_alt (given_text n.avatar_src),
      dots-fallback n,
      dots-unread_dot M (is_unread n),
      dots-block n.description "line-clamp-2 text-base font-extralight text-muted-foreground" h.1,
      dots-block n.timestamp "text-base font-extralight text-muted-foreground" h.2,
    )

    dots-row :
        (on_select : Option (NotificationItem M → List M)) (n : NotificationItem M)
        → IsDotless n
        → dots (notification_row L on_select n) ≡ (if is_unread n then 1 else 0)
    unfolding notification_row count get dropdown_menu_item part spread
    dots-row on_select n h = elim (Bool-cases (given_text n.href)) [
      | inl linked ↦ rw linked (omega (arith, dots-content n h))
      | inr plain ↦ rw plain (omega (arith, dots-content n h))
    ]

    dots-rows :
        (on_select : Option (NotificationItem M → List M)) (ns : List (NotificationItem M))
        → All IsDotless ns
        → dots (many (map (notification_row L on_select) ns)) ≡ length (filter is_unread ns)
    unfolding count
    dots-rows on_select [] h = refl
    dots-rows on_select (n ∷ ns) h =
        ground (arith, dots-row on_select n h.0, dots-rows on_select ns h.1)

    -- Unless the caller gives a count, the number that the badges show is the number of unread dots
    -- in the list, when the shown titles, descriptions and times have no such dots of their own.
    pub total_unread-dots :
        (on_select : Option (NotificationItem M → List M)) (empty_label : String)
        (ns : List (NotificationItem M))
        → All IsDotless ns
        → total_unread none ns ≡ dots (notification_list L on_select empty_label ns)
    unfolding count get
    total_unread-dots on_select empty_label [] h = refl
    total_unread-dots on_select empty_label (n ∷ ns) h = sym (dots-rows on_select (n ∷ ns) h)

    -- Choosing the rows of the list hands the notifications to the caller's handler, in order.
    pub rows-chosen :
        (select : NotificationItem M → List M) (ns : List (NotificationItem M)) (e : Event M)
        → map (λ row. fire "onSelect" row e) (map (notification_row L (some select)) ns)
          ≡ map select ns
    unfolding notification_row dropdown_menu_item part spread get
    rows-chosen select [] e = refl
    rows-chosen select (n ∷ ns) e = ap (λ rest. select n ∷ rest) (rows-chosen select ns e)
