-- ===== src/Ui/Popover.antt =====
-- The components of app/frontend/components/ui/popover/popover.tsx.
use opanel.Common.{String, Option, [], ◌∷◌, ℕ, or_else}
use opanel.Dom.{Props, Node, element, host, foreign, str, num, spread, all_attrs}
use opanel.Ui.Cn.{ClassLibs, lit}
use opanel.Ui.Part.{part}

module _ {M : Type 0} (L : ClassLibs) where
  unfoldable pub popover : Props M → Node M
  popover p =
      element (foreign "Popover.Root") (spread (("data-slot", str "popover") ∷ []) (all_attrs p))
        p.children

  unfoldable pub popover_trigger : Props M → Node M
  popover_trigger p =
      element (foreign "Popover.Trigger")
        (spread (("data-slot", str "popover-trigger") ∷ []) (all_attrs p)) p.children

  unfoldable pub popover_content : Option String → Option ℕ → Props M → Node M
  popover_content align side_offset p = element (foreign "Popover.Portal") ([]) (
      part L (foreign "Popover.Content") "popover-content"
        (("align", str (or_else align "center")) ∷ ("sideOffset", num (or_else side_offset 4)) ∷ [])
        (lit
            "z-50 flex w-72 origin-(--radix-popover-content-transform-origin) flex-col gap-2.5 rounded-xs bg-popover p-2.5 text-lg text-popover-foreground shadow-2xl shadow-(color:--shadow-surface) outline-hidden duration-100 data-[side=bottom]:slide-in-from-top-2 data-[side=left]:slide-in-from-right-2 data-[side=right]:slide-in-from-left-2 data-[side=top]:slide-in-from-bottom-2 data-open:animate-in data-open:fade-in-0 data-open:zoom-in-95 data-closed:animate-out data-closed:fade-out-0 data-closed:zoom-out-95"
          ∷ [])
        p)

  unfoldable pub popover_anchor : Props M → Node M
  popover_anchor p =
      element (foreign "Popover.Anchor")
        (spread (("data-slot", str "popover-anchor") ∷ []) (all_attrs p)) p.children

  unfoldable pub popover_header : Props M → Node M
  popover_header p =
      part L (host "div") "popover-header" [] (lit "flex flex-col gap-0.5 text-lg" ∷ []) p

  unfoldable pub popover_title : Props M → Node M
  popover_title p = part L (host "div") "popover-title" [] (lit "font-medium" ∷ []) p

  unfoldable pub popover_description : Props M → Node M
  popover_description p =
      part L (host "p") "popover-description" [] (lit "text-muted-foreground" ∷ []) p
