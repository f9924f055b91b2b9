-- ===== src/Ui/Card.antt =====
-- The components of app/frontend/components/ui/card/card.tsx.
use opanel.Common.{String, Option, [], ◌∷◌, or_else}
use opanel.Dom.{Props, Node, host, str}
use opanel.Ui.Cn.{ClassLibs, lit}
use opanel.Ui.Part.{part}

module _ {M : Type 0} (L : ClassLibs) where
  unfoldable pub card : Option String → Props M → Node M
  card size p =
      part L (host "div") "card" (("data-size", str (or_else size "default")) ∷ [])
        (lit
            "group/card flex flex-col gap-(--card-spacing) overflow-hidden rounded-md bg-card py-(--card-spacing) text-base text-card-foreground shadow-2xl shadow-(color:--shadow-surface) [--card-spacing:--spacing(4)] has-data-[slot=card-footer]:pb-0 has-[>img:first-child]:pt-0 data-[size=sm]:[--card-spacing:--spacing(3)] data-[size=sm]:has-data-[slot=card-footer]:pb-0 *:[img:first-child]:rounded-t-md *:[img:last-child]:rounded-b-md"
          ∷ [])
        p

  unfoldable pub card_header : Props M → Node M
  card_header p =
      part L (host "div") "card-header" []
        (lit
            "group/card-header @container/card-header grid auto-rows-min items-start gap-1 rounded-t-md px-(--card-spacing) has-data-[slot=card-action]:grid-cols-[1fr_auto] has-data-[slot=card-description]:grid-rows-[auto_auto] [.border-b]:pb-(--card-spacing)"
          ∷ [])
        p

  unfoldable pub card_title : Props M → Node M
  card_title p =
      part L (host "div") "card-title" []
        (lit "font-heading text-lg leading-snug font-medium group-data-[size=sm]/card:text-base"
          ∷ [])
        p

  unfoldable pub card_description : Props M → Node M
  card_description p =
      part L (host "div") "card-description" [] (lit "text-base text-muted-foreground" ∷ []) p

  unfoldable pub card_action : Props M → Node M
  card_action p =
      part L (host "div") "card-action" []
        (lit "col-start-2 row-span-2 row-start-1 self-start justify-self-end" ∷ []) p

  unfoldable pub card_content : Props M → Node M
  card_content p = part L (host "div") "card-content" [] (lit "px-(--card-spacing)" ∷ []) p

  unfoldable pub card_footer : Props M → Node M
  card_footer p =
      part L (host "div") "card-footer" []
        (lit "flex items-center rounded-b-md border-t bg-muted/50 p-(--card-spacing)" ∷ []) p
