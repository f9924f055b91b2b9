-- ===== src/Ui/Avatar/Badge.antt =====
-- `AvatarBadge` of app/frontend/components/ui/avatar/avatar.tsx.
use opanel.Common.{String, Option, none, some, List, [], ◌∷◌, or_else}
use opanel.Dom.{Props, Node, host, str, opt_str, get}
use opanel.Ui.Cn.{ClassLibs, ClassValue, lit, falsy, given}
use opanel.Ui.Part.{part}

abbrev pub avatar_badge_position : List (String × String)
avatar_badge_position =
    ("bottom-right", "right-0 bottom-0")
    ∷ ("bottom-left", "bottom-0 left-0")
    ∷ ("top-right", "top-0 right-0")
    ∷ ("top-left", "top-0 left-0")
    ∷ []

abbrev pub avatar_badge_status : List (String × String)
avatar_badge_status =
    ("online", "bg-success text-success-foreground")
    ∷ ("away", "bg-secondary text-secondary-foreground")
    ∷ ("busy", "bg-danger text-danger-foreground")
    ∷ ("offline", "bg-disabled text-background")
    ∷ []

-- `status === undefined ? undefined : AVATAR_BADGE_STATUS[status]`
unfoldable pub status_class : Option String → ClassValue
unfolding get
status_class none = falsy
status_class (some status) = given (get status avatar_badge_status)

module _ {M : Type 0} (L : ClassLibs) where
  unfoldable pub avatar_badge : Option String → Option String → Props M → Node M
  unfolding status_class get
  avatar_badge position status p =
      part L (host "span") "avatar-badge"
        (("data-position", str (or_else position "bottom-right"))
          ∷ ("data-status", opt_str status)
          ∷ [])
        (lit
            "absolute z-10 inline-flex items-center justify-center rounded-full bg-primary text-primary-foreground bg-blend-color ring-2 ring-background select-none"
          ∷ given (get (or_else position "bottom-right") avatar_badge_position)
          ∷ status_class status
          ∷ lit "group-data-[size=sm]/avatar:size-2 group-data-[size=sm]/avatar:[&>svg]:hidden"
          ∷ lit
              "group-data-[size=default]/avatar:size-2.5 group-data-[size=default]/avatar:[&>svg]:size-2"
          ∷ lit "group-data-[size=lg]/avatar:size-3 group-data-[size=lg]/avatar:[&>svg]:size-2"
          ∷ [])
        p
