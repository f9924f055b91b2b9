-- ===== src/Ui/Kbd.antt =====
-- The components of app/frontend/components/ui/kbd/kbd.tsx.
use opanel.Common.{[], ◌∷◌}
use opanel.Dom.{Props, Node, host}
use opanel.Ui.Cn.{ClassLibs, lit}
use opanel.Ui.Part.{part}

module _ {M : Type 0} (L : ClassLibs) where
  unfoldable pub kbd : Props M → Node M
  kbd p =
      part L (host "kbd") "kbd" []
        (lit
            "pointer-events-none inline-flex h-8 w-fit min-w-8 items-center justify-center gap-1 rounded-xs bg-muted px-2 font-sans text-lg font-medium text-muted-foreground select-none in-data-[slot=tooltip-content]:bg-background/20 in-data-[slot=tooltip-content]:text-background dark:in-data-[slot=tooltip-content]:bg-background/10 [&_svg:not([class*='size-'])]:size-[18px]"
          ∷ [])
        p

  unfoldable pub kbd_group : Props M → Node M
  kbd_group p = part L (host "kbd") "kbd-group" [] (lit "inline-flex items-center gap-1" ∷ []) p
