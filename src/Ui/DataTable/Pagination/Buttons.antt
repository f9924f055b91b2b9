-- ===== src/Ui/DataTable/Pagination/Buttons.antt =====
-- The four paging buttons in the tree of app/frontend/components/ui/table/data-table-pagination.tsx.
use opanel.Common.{ℕ, Bool, true, false, not, or_else, List, [], ◌∷◌, map, ◌≡◌, refl, if◌then◌else◌}
use opanel.Dom.{many, get, spread}
use opanel.Dom.Press.{buttons, press}
use opanel.Ui.Cn.{ClassLibs}
use opanel.Ui.Icons.{icon}
use opanel.Ui.Button.{button}
use opanel.Ui.Select.{
  select, select_trigger, select_value, select_content, select_item, select_scroll_up_button,
  select_scroll_down_button,
}
use opanel.Ui.DataTable.{ReactTable}
use opanel.Ui.DataTable.Pagination.{
  DataTablePaginationProps, rows_shown, page_label, size_item, size_select, page_button,
  page_buttons, data_table_pagination,
}

module _ {M : Type 0} where
  abbrev pub when : Bool → List M → List M
  when true effects = effects
  when false effects = []

  inert :
      (back forth : Bool) (w x y z : List M)
      → (if not back then [] else w)
          ∷ (if not back then [] else x)
          ∷ (if not forth then [] else y)
          ∷ (if not forth then [] else z)
          ∷ []
        ≡ when back w ∷ when back x ∷ when forth y ∷ when forth z ∷ []
  inert true true w x y z = refl
  inert true false w x y z = refl
  inert false true w x y z = refl
  inert false false w x y z = refl

buttons-size_items :
    (M : Type 0) (L : ClassLibs) (sizes : List ℕ)
    → buttons (many (map (size_item {M = M} L) sizes)) ≡ []
unfolding buttons size_item select_item icon
buttons-size_items M L [] = refl
buttons-size_items M L (n ∷ sizes) = buttons-size_items M L sizes

buttons-size_select :
    (M : Type 0) (L : ClassLibs) (table : ReactTable M) (sizes : List ℕ)
    → buttons (size_select L table sizes) ≡ []
unfolding buttons size_select select select_trigger select_value select_content icon
    select_scroll_up_button select_scroll_down_button
buttons-size_select M L table sizes = rw (buttons-size_items M L sizes) refl

-- A click on a paging button runs the command of the table that the button is for, where the table
-- can go that way, and nothing otherwise: the four buttons are first, previous, next and last.
pub press-buttons :
    {M : Type 0} (L : ClassLibs) (p : DataTablePaginationProps M)
    → map press (buttons (data_table_pagination L p))
      ≡ when p.table.get_can_previous_page p.table.first_page
        ∷ when p.table.get_can_previous_page p.table.previous_page
        ∷ when p.table.get_can_next_page p.table.next_page
        ∷ when p.table.get_can_next_page p.table.last_page
        ∷ []
unfolding buttons press data_table_pagination page_buttons page_button button get spread icon
    page_label rows_shown
press-buttons {M} L p =
    rw (buttons-size_select M L p.table (or_else p.page_size_options (10 ∷ 20 ∷ 30 ∷ 50 ∷ [])))
      (inert p.table.get_can_previous_page p.table.get_can_next_page _ _ _ _)
