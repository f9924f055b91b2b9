-- ===== src/Ui/DataTable/View.antt =====
-- app/frontend/components/ui/table/data-table.tsx. `useTable` of the package is a parameter.
pub mod Loading
pub mod Shown
use opanel.Common.{
  ℕ, String, Bool, true, false, ◌&&◌, ◌||◌, Option, none, some, List, [], ◌∷◌, map, length, ltb,
  if◌then◌else◌, or_else, is_some,
}
use opanel.Dom.{Node, nothing, text, element, host, str, num, undefined, many, show_if}
use opanel.Ui.Cn.{ClassLibs, cn, lit, given}
use opanel.Ui.Empty.{empty, empty_header, empty_title}
use opanel.Ui.Table.{table, table_header, table_body, table_row, table_head, table_cell}
use opanel.Ui.Skeleton.Own.{skeleton_data_table}
use opanel.Ui.DataTable.{ReactTable, Column, Row, Cell, Header, HeaderGroup}
use opanel.Ui.DataTable.Features.{FeatureOptions, data_table_features}
use opanel.Ui.DataTable.Columns.{
  ColumnDef, resolved_columns, hideable_columns, filterable_column, filter_input, column_menu,
}
use opanel.Ui.DataTable.Pagination.{data_table_pagination}

pub record TableOptions (M C D : Type 0) : Type 0 where
  pub features : FeatureOptions
  pub columns : List (ColumnDef M C)
  pub data_rows : List D
  pub enable_row_selection : Bool
  pub page_index : ℕ
  pub page_size : ℕ

-- A prop that is not given is `none`; `column_labels` is then without entries.
pub record DataTableProps (C D : Type 0) : Type 0 where
  pub columns : List C
  pub data_rows : List D
  pub class_name : Option String
  pub column_labels : List (String × String)
  pub empty_message : Option String
  pub filter_column : Option String
  pub filter_placeholder : Option String
  pub loading : Option Bool
  pub page_size : Option ℕ
  pub page_size_options : Option (List ℕ)
  pub selectable : Option Bool
  pub show_column_visibility : Option Bool

-- What the package's hook makes of its options; `tableFeatures` is part of it.
abbrev pub UseTable : Type 0 → Type 0 → Type 0 → Type 0
UseTable M C D = TableOptions M C D → ReactTable M

module _ {M : Type 0} (L : ClassLibs) where
  unfoldable pub filter_of : String → Option (Column M) → Node M
  unfolding filter_input
  filter_of placeholder none = nothing
  filter_of placeholder (some column) = filter_input L column placeholder

  unfoldable pub toolbar :
      List (String × String) → Option (Column M) → String → Bool → List (Column M) → Node M
  unfolding filter_of column_menu
  toolbar labels filterable placeholder visibility hideable =
      let menu = visibility && ltb 0 (length hideable) in
      show_if (is_some filterable || menu) (
        element (host "div")
          (("className", str "flex flex-col gap-3 sm:flex-row sm:items-center") ∷ [])
          (many
            (filter_of placeholder filterable ∷ show_if menu (column_menu L labels hideable) ∷ [])))

  unfoldable pub head_cell : Header M → Node M
  unfolding table_head
  head_cell header = table_head L (record {
    class_name = none;
    attrs = [];
    children = if header.is_placeholder then nothing else header.flex_render;
  })

  unfoldable pub head_row : HeaderGroup M → Node M
  unfolding table_row head_cell
  head_row group =
      table_row L
        (record { class_name = none; attrs = []; children = many (map head_cell group.headers) })

  unfoldable pub body_cell : Cell M → Node M
  unfolding table_cell
  body_cell cell =
      table_cell L (record { class_name = none; attrs = []; children = cell.flex_render })

  unfoldable pub body_row : Row M → Node M
  unfolding table_row body_cell
  body_row row = table_row L (record {
    class_name = none;
    attrs = ("data-state", if row.get_is_selected then str "selected" else undefined) ∷ [];
    children = many (map body_cell row.get_visible_cells);
  })

  unfoldable pub empty_row : ℕ → String → Node M
  unfolding table_row table_cell empty empty_header empty_title
  empty_row span message = table_row L (record {
    class_name = some "hover:bg-transparent";
    attrs = [];
    children = table_cell L (record {
      class_name = some "h-40";
      attrs = ("colSpan", num span) ∷ [];
      children = empty L (record {
        class_name = some "border-0";
        attrs = [];
        children = empty_header L (record {
          class_name = none;
          attrs = [];
          children =
              empty_title L (record { class_name = none; attrs = []; children = text message });
        });
      });
    });
  })

  unfoldable pub body_rows : List (Row M) → ℕ → String → Node M
  unfolding body_row empty_row
  body_rows rows span message =
      if ltb 0 (length rows) then many (map body_row rows) else empty_row span message

  unfoldable pub table_view : ReactTable M → ℕ → String → Node M
  unfolding table table_header table_body head_row body_rows
  table_view t span message =
      element (host "div") (("className", str "overflow-hidden rounded-md border") ∷ []) (
        table L (record {
          class_name = none;
          attrs = [];
          children = many (
              table_header L (record {
                class_name = none;
                attrs = [];
                children = many (map head_row t.get_header_groups);
              })
              ∷ table_body L (record {
                class_name = none;
                attrs = [];
                children = body_rows t.row_model_rows span message;
              })
              ∷ []);
        }))

  -- The hook is called before `loading` is looked at; it has no effect of its own in a render.
  unfoldable pub data_table : {C D : Type 0} → UseTable M C D → DataTableProps C D → Node M
  unfolding toolbar table_view data_table_pagination resolved_columns hideable_columns
      filterable_column skeleton_data_table data_table_features
  data_table use_table p =
      let selectable = or_else p.selectable true in
      let columns = resolved_columns L p.columns selectable in
      let t = use_table (record {
        features = data_table_features;
        columns = columns;
        data_rows = p.data_rows;
        enable_row_selection = selectable;
        page_index = 0;
        page_size = or_else p.page_size 10;
      }) in
      if or_else p.loading false
      then skeleton_data_table L
          (record { class_name = p.class_name; attrs = []; children = nothing })
      else element (host "div")
          (("data-slot", str "data-table")
            ∷ ("className", str (cn L (lit "w-full space-y-4" ∷ given p.class_name ∷ [])))
            ∷ [])
          (many (
            toolbar p.column_labels (filterable_column t p.filter_column)
              (or_else p.filter_placeholder "Pesquisar...") (or_else p.show_column_visibility true)
              (hideable_columns t)
            ∷ table_view t (length columns) (or_else p.empty_message "Nenhum resultado encontrado.")
            ∷ data_table_pagination L (record {
              table = t;
              page_size_options = some (or_else p.page_size_options (10 ∷ 20 ∷ 30 ∷ 50 ∷ []));
              show_selection = some selectable;
            })
            ∷ []))
