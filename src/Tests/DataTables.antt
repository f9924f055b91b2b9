-- ===== src/Tests/DataTables.antt =====
-- The data table over a small table of its own: a number of rows, a page size and a page.
pub mod Shown
use opanel.Common.{
  ℕ, suc, ◌+◌, ◌-◌, ◌*◌, ◌/◌, String, true, false, Option, none, some, List, [], ◌∷◌, ◌++◌, map,
  ltb, ◌≡◌, ◌↔◌, refl, arith, if◌then◌else◌,
}
use opanel.Dom.{nothing, text, str, bool, get, texts, fire, root_attrs, typed, Props}
use opanel.Dom.Entries.{entries}
use opanel.Dom.Press.{buttons, press}
use opanel.Ui.DataTable.{ReactTable, Column, SortDirection}
use opanel.Ui.DataTable.ColumnHeader.{DataTableColumnHeaderProps, data_table_column_header}
use opanel.Ui.DataTable.ColumnHeader.Entries.{item, entries-column_header}
use opanel.Ui.DataTable.Columns.{hideable_columns, column_menu}
use opanel.Ui.DataTable.Columns.Menu.{entry, entries-column_menu}
use opanel.Ui.DataTable.Pagination.{
  DataTablePaginationProps, math_max, size_item, size_select, data_table_pagination,
}
use opanel.Ui.DataTable.Pagination.Buttons.{press-buttons}
use opanel.Ui.DataTable.Pagination.PageSize.{text_of, size_select-size_item}
use opanel.Ui.DataTable.Pagination.Session.{
  TableStore, PagingLaws, IsInRange, Reaches, here, after, click_button, choose_size, index, pages,
  clicks, run_all, clicked, resized,
}
use opanel.Ui.DataTable.Pagination.InRange.{reaches-IsInRange}
use opanel.Ui.DataTable.Pagination.LastPage.{clicks-next}
use opanel.Ui.DataTable.View.{DataTableProps, TableOptions, table_view, data_table}
use opanel.Ui.DataTable.View.Loading.{data_table-IsSilent}
use opanel.Ui.DataTable.View.Shown.{concat, head_texts, rows_texts, texts-table_view}
use opanel.Ui.Skeleton.Layout.{chart, skeleton_layout}
use opanel.Ui.Skeleton.Layout.Silent.{IsSilent, skeleton_layout-IsSilent}
use opanel.Tests.{plain_libs}

-- What the commands of the small table ask for.
pub data Move : Type 0 where
  to_first : Move
  to_previous : Move
  to_next : Move
  to_last : Move
  resize_to : ℕ → Move

pub record Paged : Type 0 where
  pub total_rows : ℕ
  pub rows_per_page : ℕ
  pub page : ℕ

abbrev page_total : Paged → ℕ
page_total s = (s.total_rows + (s.rows_per_page - 1)) / s.rows_per_page

abbrev resize_moves : Option ℕ → List Move
resize_moves none = []
resize_moves (some n) = resize_to n ∷ []

abbrev pub name_column : Column Move
name_column = record {
  id = "name";
  get_can_sort = true;
  get_is_sorted = some SortDirection.asc;
  toggle_sorting = λ down. if down then to_last ∷ [] else to_first ∷ [];
  get_can_hide = true;
  accessor_fn = true;
  get_is_visible = true;
  toggle_visibility = λ on. if on then [] else to_previous ∷ [];
  get_filter_value = none;
  set_filter_value = λ s. [];
}

abbrev fixed_column : Column Move
fixed_column = record name_column { id = "select"; get_can_hide = false }

abbrev pub small_table : Paged → ReactTable Move
small_table s = record {
  get_all_columns = fixed_column ∷ name_column ∷ [];
  get_column = λ id. some name_column;
  get_header_groups =
      record {
        id = "0";
        headers = record { id = "name"; is_placeholder = false; flex_render = text "Name" } ∷ [];
      }
      ∷ [];
  row_model_rows =
      record {
        id = "0";
        get_is_selected = true;
        toggle_selected = λ on. [];
        get_visible_cells = record { id = "0_name"; flex_render = text "api" } ∷ [];
      }
      ∷ [];
  filtered_rows = s.total_rows;
  filtered_selected_rows = 1;
  get_is_all_page_rows_selected = false;
  get_is_some_page_rows_selected = true;
  toggle_all_page_rows_selected = λ on. [];
  page_index = s.page;
  page_size = s.rows_per_page;
  get_page_count = page_total s;
  get_can_previous_page = ltb 0 s.page;
  get_can_next_page = ltb (suc s.page) (page_total s);
  first_page = to_first ∷ [];
  previous_page = to_previous ∷ [];
  next_page = to_next ∷ [];
  last_page = to_last ∷ [];
  set_page_size = resize_moves;
}

abbrev move : Move → Paged → Paged
move to_first s = record s { page = 0 }
move to_previous s = record s { page = s.page - 1 }
move to_next s = record s { page = suc s.page }
move to_last s = record s { page = page_total s - 1 }
move (resize_to n) s = record s { page = s.rows_per_page * s.page / n; rows_per_page = n }

abbrev small_store : TableStore Move Paged
small_store = record { view = small_table; run = move }

small_laws : PagingLaws small_store
unfolding run_all
small_laws = record {
  page_count = λ s h. refl;
  can_previous = λ s. refl;
  can_next = λ s. refl;
  first = λ s. (refl, refl, refl);
  previous = λ s. (refl, refl, refl);
  next = λ s. (refl, refl, refl);
  last = λ s. (refl, refl, refl);
  resize = λ s n h. (refl, refl, refl);
}

abbrev pub third_of_five : Paged
third_of_five = record { total_rows = 48; rows_per_page = 10; page = 2 }

abbrev offered : List ℕ
offered = 10 ∷ 20 ∷ []

third_of_five-IsInRange : IsInRange small_store third_of_five
third_of_five-IsInRange = (omega arith, omega arith)

abbrev pager : DataTablePaginationProps Move
pager = record {
  table = small_table third_of_five;
  page_size_options = some offered;
  show_selection = some true;
}

press-buttons_example :
    map press (buttons (data_table_pagination plain_libs pager))
    ≡ (to_first ∷ []) ∷ (to_previous ∷ []) ∷ (to_next ∷ []) ∷ (to_last ∷ []) ∷ []
press-buttons_example = press-buttons plain_libs pager

size_select-size_item_example :
    (texts (size_item {M = Move} plain_libs 20) ≡ "20" ∷ [])
    × (fire "onValueChange" (size_select plain_libs (small_table third_of_five) offered) (record {
      prevent_default = [];
      value = typed (text_of (get "value" (root_attrs (size_item {M = Move} plain_libs 20))));
    })
        ≡ resize_to 20 ∷ [])
    × ((text_of
            (get "value" (root_attrs (size_select plain_libs (small_table third_of_five) offered)))
          ≡ text_of (get "value" (root_attrs (size_item {M = Move} plain_libs 20))))
        ↔ ((small_table third_of_five).page_size ≡ 20))
unfolding opanel.Common.Decimal.decimal
size_select-size_item_example =
    size_select-size_item plain_libs (small_table third_of_five) offered 20

-- The next page, the last one, and twenty rows on a page.
abbrev used : Paged
used = resized plain_libs small_store offered 20 (
    clicked plain_libs small_store offered 3
      (clicked plain_libs small_store offered 2 third_of_five))

abbrev use_of_pager : Reaches plain_libs small_store offered third_of_five used
use_of_pager = after (after (after here (click_button 2)) (click_button 3)) (choose_size 20 refl)

reaches-IsInRange_example : IsInRange small_store used
reaches-IsInRange_example =
    reaches-IsInRange plain_libs small_store offered third_of_five used small_laws
      (omega arith, (omega arith, tt)) third_of_five-IsInRange use_of_pager

clicks-next_example :
    (suc (index small_store (clicks plain_libs small_store offered 2 2 third_of_five))
      ≡ math_max 5 1)
    × (pages small_store (clicks plain_libs small_store offered 2 2 third_of_five) ≡ 5)
    × ((small_table (clicks plain_libs small_store offered 2 2 third_of_five)).get_can_next_page
        ≡ false)
clicks-next_example =
    clicks-next plain_libs small_store offered third_of_five 2 small_laws third_of_five-IsInRange
      refl
