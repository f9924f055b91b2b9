-- ===== src/Ui/HoverCard.antt =====
-- The components of app/frontend/components/ui/hover-card/hover-card.tsx.
use opanel.Common.{String, Option, [], ◌∷◌, ℕ, or_else}
use opanel.Dom.{Props, Node, element, foreign, str, num, spread, all_attrs}
use opanel.Ui.Cn.{ClassLibs, lit}
use opanel.Ui.Part.{part}

module _ {M : Type 0} (L : ClassLibs) where
  unfoldable pub hover_card : Props M → Node M
  hover_card p =
      element (foreign "HoverCard.Root")
        (spread (("data-slot", str "hover-card") ∷ []) (all_attrs p)) p.children

  unfoldable pub hover_card_trigger : Props M → Node M
  hover_card_trigger p =
      element (foreign "HoverCard.Trigger")
        (spread (("data-slot", str "hover-card-trigger") ∷ []) (all_attrs p)) p.children

  unfoldable pub hover_card_content : Option String → Option ℕ → Props M → Node M
  hover_card_content align side_offset p =
      element (foreign "HoverCard.Portal") (("data-slot", str "hover-card-portal") ∷ []) (
        part L (foreign "HoverCard.Content") "hover-card-content"
          (("align", str (or_else align "center"))
            ∷ ("sideOffset", num (or_else side_offset 4))
            ∷ [])
          (lit
              "z-50 w-64 origin-(--radix-hover-card-content-transform-origin) rounded-xs bg-popover p-2.5 text-lg text-popover-foreground shadow-2xl shadow-(color:--shadow-surface) outline-hidden duration-100 data-[side=bottom]:slide-in-from-top-2 data-[side=left]:slide-in-from-right-2 data-[side=right]:slide-in-from-left-2 data-[side=top]:slide-in-from-bottom-2 data-open:animate-in data-open:fade-in-0 data-open:zoom-in-95 data-closed:animate-out data-closed:fade-out-0 data-closed:zoom-out-95"
            ∷ [])
          p)
