-- ===== src/Ui/DataTable.antt =====
-- app/frontend/components/ui/table: the data table. TanStack Table is a package, so a table is what
-- it hands to the code in one render: the answers of the getters that the code calls, and for each
-- command the effects that calling it has.
pub mod ColumnHeader
pub mod Columns
pub mod Features
pub mod Pagination
pub mod View
use opanel.Common.{ℕ, String, Bool, Option, List}
use opanel.Dom.{Node}

pub data SortDirection : Type 0 where
  asc : SortDirection
  desc : SortDirection

pub record Column (M : Type 0) : Type 0 where
  pub id : String
  pub get_can_sort : Bool
  -- `false` is `none`.
  pub get_is_sorted : Option SortDirection
  pub toggle_sorting : Bool → List M
  pub get_can_hide : Bool
  -- `Boolean(column.accessorFn)`
  pub accessor_fn : Bool
  pub get_is_visible : Bool
  pub toggle_visibility : Bool → List M
  pub get_filter_value : Option String
  pub set_filter_value : String → List M

-- `flex_render` is what `<table.FlexRender cell={cell} />` shows.
pub record Cell (M : Type 0) : Type 0 where
  pub id : String
  pub flex_render : Node M

pub record Row (M : Type 0) : Type 0 where
  pub id : String
  pub get_is_selected : Bool
  pub toggle_selected : Bool → List M
  pub get_visible_cells : List (Cell M)

pub record Header (M : Type 0) : Type 0 where
  pub id : String
  pub is_placeholder : Bool
  pub flex_render : Node M

pub record HeaderGroup (M : Type 0) : Type 0 where
  pub id : String
  pub headers : List (Header M)

-- `Number(text)`, which a table gets as its page size, is `none` where it is not a number.
pub record ReactTable (M : Type 0) : Type 0 where
  pub get_all_columns : List (Column M)
  pub get_column : String → Option (Column M)
  pub get_header_groups : List (HeaderGroup M)
  pub row_model_rows : List (Row M)
  pub filtered_rows : ℕ
  pub filtered_selected_rows : ℕ
  pub get_is_all_page_rows_selected : Bool
  pub get_is_some_page_rows_selected : Bool
  pub toggle_all_page_rows_selected : Bool → List M
  pub page_index : ℕ
  pub page_size : ℕ
  pub get_page_count : ℕ
  pub get_can_previous_page : Bool
  pub get_can_next_page : Bool
  pub first_page : List M
  pub previous_page : List M
  pub next_page : List M
  pub last_page : List M
  pub set_page_size : Option ℕ → List M
