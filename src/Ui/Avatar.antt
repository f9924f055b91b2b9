-- ===== src/Ui/Avatar.antt =====
-- The components of app/frontend/components/ui/avatar/avatar.tsx.
pub mod Badge
use opanel.Common.{String, Option, [], ◌∷◌, or_else}
use opanel.Dom.{Props, Node, host, foreign, str}
use opanel.Ui.Cn.{ClassLibs, lit}
use opanel.Ui.Part.{part}

module _ {M : Type 0} (L : ClassLibs) where
  unfoldable pub avatar : Option String → Props M → Node M
  avatar size p =
      part L (foreign "Avatar.Root") "avatar" (("data-size", str (or_else size "default")) ∷ [])
        (lit
            "group/avatar relative flex size-8 shrink-0 rounded-full select-none after:absolute after:inset-0 after:rounded-full after:border after:border-border after:mix-blend-darken data-[size=lg]:size-10 data-[size=sm]:size-6 dark:after:mix-blend-lighten"
          ∷ [])
        p

  unfoldable pub avatar_image : Props M → Node M
  avatar_image p =
      part L (foreign "Avatar.Image") "avatar-image" []
        (lit "aspect-square size-full rounded-full object-cover" ∷ []) p

  unfoldable pub avatar_fallback : Props M → Node M
  avatar_fallback p =
      part L (foreign "Avatar.Fallback") "avatar-fallback" []
        (lit
            "flex size-full items-center justify-center rounded-full bg-muted text-base text-muted-foreground group-data-[size=sm]/avatar:text-xs"
          ∷ [])
        p

  unfoldable pub avatar_group : Props M → Node M
  avatar_group p =
      part L (host "div") "avatar-group" []
        (lit
            "group/avatar-group flex -space-x-2 *:data-[slot=avatar]:ring-2 *:data-[slot=avatar]:ring-background"
          ∷ [])
        p

  unfoldable pub avatar_group_count : Props M → Node M
  avatar_group_count p =
      part L (host "div") "avatar-group-count" []
        (lit
            "relative flex size-8 shrink-0 items-center justify-center rounded-full bg-muted text-base text-muted-foreground ring-2 ring-background group-has-data-[size=lg]/avatar-group:size-10 group-has-data-[size=sm]/avatar-group:size-6 [&>svg]:size-[18px] group-has-data-[size=lg]/avatar-group:[&>svg]:size-5 group-has-data-[size=sm]/avatar-group:[&>svg]:size-3"
          ∷ [])
        p
