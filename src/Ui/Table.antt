-- ===== src/Ui/Table.antt =====
-- The components of app/frontend/components/ui/table/table.tsx.
use opanel.Common.{[], ◌∷◌}
use opanel.Dom.{Props, Node, element, host, str}
use opanel.Ui.Cn.{ClassLibs, lit}
use opanel.Ui.Part.{part}

module _ {M : Type 0} (L : ClassLibs) where
  unfoldable pub table : Props M → Node M
  table p =
      element (host "div")
        (("data-slot", str "table-container")
          ∷ ("className", str "relative w-full overflow-x-auto")
          ∷ [])
        (part L (host "table") "table" [] (lit "w-full caption-bottom text-lg" ∷ []) p)

  unfoldable pub table_header : Props M → Node M
  table_header p = part L (host "thead") "table-header" [] (lit "[&_tr]:border-b" ∷ []) p

  unfoldable pub table_body : Props M → Node M
  table_body p = part L (host "tbody") "table-body" [] (lit "[&_tr:last-child]:border-0" ∷ []) p

  unfoldable pub table_footer : Props M → Node M
  table_footer p =
      part L (host "tfoot") "table-footer" []
        (lit "border-t bg-muted/50 font-medium [&>tr]:last:border-b-0" ∷ []) p

  unfoldable pub table_row : Props M → Node M
  table_row p =
      part L (host "tr") "table-row" []
        (lit
            "border-b transition-colors hover:bg-muted/50 has-aria-expanded:bg-muted/50 data-[state=selected]:bg-muted"
          ∷ [])
        p

  unfoldable pub table_head : Props M → Node M
  table_head p =
      part L (host "th") "table-head" []
        (lit
            "h-10 px-2 text-left align-middle font-medium whitespace-nowrap text-foreground even:bg-muted/30 [&:has([role=checkbox])]:pr-0"
          ∷ [])
        p

  unfoldable pub table_cell : Props M → Node M
  table_cell p =
      part L (host "td") "table-cell" []
        (lit
            "px-2 py-4 align-middle text-foreground/70 whitespace-nowrap even:bg-muted/30 [&:has([role=checkbox])]:pr-0"
          ∷ [])
        p

  unfoldable pub table_caption : Props M → Node M
  table_caption p =
      part L (host "caption") "table-caption" [] (lit "mt-4 text-base text-muted-foreground" ∷ []) p
