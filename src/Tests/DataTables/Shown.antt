-- ===== src/Tests/DataTables/Shown.antt =====
-- What the data table shows of the small table, and the placeholders.
use opanel.Common.{String, true, false, none, some, [], ◌∷◌, ◌++◌, map, ◌≡◌, refl}
use opanel.Dom.{nothing, str, bool, get, texts, root_attrs, Props}
use opanel.Dom.Entries.{entries}
use opanel.Ui.DataTable.{ReactTable}
use opanel.Ui.DataTable.ColumnHeader.{DataTableColumnHeaderProps, data_table_column_header}
use opanel.Ui.DataTable.ColumnHeader.Entries.{item, entries-column_header}
use opanel.Ui.DataTable.Columns.{hideable_columns, column_menu}
use opanel.Ui.DataTable.Columns.Menu.{entry, entries-column_menu}
use opanel.Ui.DataTable.View.{DataTableProps, TableOptions, table_view, data_table}
use opanel.Ui.DataTable.View.Loading.{data_table-IsSilent}
use opanel.Ui.DataTable.View.Shown.{concat, head_texts, rows_texts, texts-table_view}
use opanel.Ui.Skeleton.Layout.{chart, skeleton_layout}
use opanel.Ui.Skeleton.Layout.Silent.{IsSilent, skeleton_layout-IsSilent}
use opanel.Tests.{plain_libs}
use opanel.Tests.DataTables.{
  Move, to_first, to_previous, to_last, name_column, small_table, third_of_five,
}

texts-table_view_example :
    texts (table_view plain_libs (small_table third_of_five) 2 "Nada")
    ≡ concat (map (λ g. head_texts g.headers) (small_table third_of_five).get_header_groups)
      ++ rows_texts (small_table third_of_five).row_model_rows "Nada"
texts-table_view_example = texts-table_view plain_libs (small_table third_of_five) 2 "Nada"

abbrev loading_props : DataTableProps String String
loading_props = record {
  columns = "name" ∷ [];
  data_rows = "api" ∷ [];
  class_name = none;
  column_labels = [];
  empty_message = none;
  filter_column = none;
  filter_placeholder = none;
  loading = some true;
  page_size = none;
  page_size_options = none;
  selectable = none;
  show_column_visibility = none;
}

abbrev small_hook : TableOptions Move String String → ReactTable Move
small_hook options = small_table third_of_five

data_table-IsSilent_example : IsSilent (data_table plain_libs small_hook loading_props)
data_table-IsSilent_example = data_table-IsSilent plain_libs small_hook loading_props refl

entries-column_menu_example :
    map (entry false) (
      entries "DropdownMenu.CheckboxItem" (
        column_menu plain_libs
          (("name", "Nome") ∷ [])
          (hideable_columns (small_table third_of_five))))
    ≡ ("Nome" ∷ [], some (bool true), to_previous ∷ []) ∷ []
unfolding get
entries-column_menu_example =
    entries-column_menu plain_libs (("name", "Nome") ∷ []) false (small_table third_of_five)

abbrev header_props : DataTableColumnHeaderProps Move
header_props = record { column = name_column; title = "Nome"; class_name = none }

entries-column_header_example :
    map item (entries "DropdownMenu.Item" (data_table_column_header plain_libs header_props))
    ≡ ("Crescente" ∷ [], to_first ∷ [])
      ∷ ("Decrescente" ∷ [], to_last ∷ [])
      ∷ ("Ocultar coluna" ∷ [], to_previous ∷ [])
      ∷ []
entries-column_header_example = entries-column_header plain_libs header_props

abbrev bare_props : Props Move
bare_props = record { class_name = none; attrs = []; children = nothing }

skeleton_layout-IsSilent_example :
    IsSilent (skeleton_layout plain_libs chart bare_props)
    × (get "aria-hidden" (root_attrs (skeleton_layout plain_libs chart bare_props))
        ≡ some (str "true"))
unfolding get
skeleton_layout-IsSilent_example = skeleton_layout-IsSilent plain_libs chart bare_props refl
