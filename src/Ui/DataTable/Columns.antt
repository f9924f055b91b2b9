-- ===== src/Ui/DataTable/Columns.antt =====
-- The columns of app/frontend/components/ui/table/data-table.tsx: the column of the checkboxes, the
-- filter and the menu of the columns that can be hidden.
pub mod Menu
use opanel.Common.{
  String, Bool, true, false, ◌&&◌, Option, none, some, List, [], ◌∷◌, map, filter, if◌then◌else◌,
  or_else, ◌===◌,
}
use opanel.Dom.{Node, Value, nothing, text, str, bool, handler, many, get, arg_flag}
use opanel.Ui.Cn.{ClassLibs}
use opanel.Ui.Icons.{icon}
use opanel.Ui.Button.{button}
use opanel.Ui.Checkbox.{checkbox}
use opanel.Ui.Input.{input}
use opanel.Ui.DropdownMenu.{
  dropdown_menu, dropdown_menu_trigger, dropdown_menu_content, dropdown_menu_checkbox_item,
  dropdown_menu_label, dropdown_menu_separator,
}
use opanel.Ui.DataTable.{ReactTable, Column, Row}
use opanel.Ui.DataTable.Pagination.{arg_text}

-- A column that is given to the package: the one of the checkboxes, by its id, header, cell and what it
-- allows, or one of the caller's, which is passed on as it is.
pub data ColumnDef (M C : Type 0) : Type 0 where
  selection : String → (ReactTable M → Node M) → (Row M → Node M) → Bool → Bool → ColumnDef M C
  of_caller : C → ColumnDef M C

module _ {M : Type 0} where
  -- `a || (b && 'indeterminate')`
  abbrev pub checked_value : Bool → Bool → Value M
  checked_value a b = if a then bool true else if b then str "indeterminate" else bool false

  unfoldable pub hideable_columns : ReactTable M → List (Column M)
  hideable_columns t =
      filter (λ column. column.get_can_hide && column.accessor_fn) t.get_all_columns

  -- `filterColumn ? table.getColumn(filterColumn) : undefined`
  unfoldable pub filterable_column : ReactTable M → Option String → Option (Column M)
  filterable_column t none = none
  filterable_column t (some name) =
      let column = t.get_column name in if name === "" then none else column

module _ {M : Type 0} (L : ClassLibs) where
  unfoldable pub selection_header : ReactTable M → Node M
  unfolding checkbox
  selection_header t = checkbox L (record {
    class_name = none;
    attrs =
        ("checked", checked_value t.get_is_all_page_rows_selected t.get_is_some_page_rows_selected)
        ∷ ("onCheckedChange", handler λ e. t.toggle_all_page_rows_selected (arg_flag e.value))
        ∷ ("aria-label", str "Selecionar todas as linhas desta página")
        ∷ [];
    children = nothing;
  })

  unfoldable pub selection_cell : Row M → Node M
  unfolding checkbox
  selection_cell row = checkbox L (record {
    class_name = none;
    attrs =
        ("checked", bool row.get_is_selected)
        ∷ ("onCheckedChange", handler λ e. row.toggle_selected (arg_flag e.value))
        ∷ ("aria-label", str "Selecionar linha")
        ∷ [];
    children = nothing;
  })

  unfoldable pub resolved_columns : {C : Type 0} → List C → Bool → List (ColumnDef M C)
  unfolding selection_header selection_cell
  resolved_columns columns selectable =
      let own = map of_caller columns in
      if selectable
      then selection "select" selection_header selection_cell false false ∷ own
      else own

  unfoldable pub filter_input : Column M → String → Node M
  unfolding input
  filter_input column placeholder = input L none none (record {
    class_name = some "sm:max-w-md";
    attrs =
        ("value", str (or_else column.get_filter_value ""))
        ∷ ("onChange", handler λ e. column.set_filter_value (arg_text e.value))
        ∷ ("placeholder", str placeholder)
        ∷ ("aria-label", str placeholder)
        ∷ [];
    children = nothing;
  })

  -- `columnLabels` has the keys of its own.
  unfoldable pub column_item : List (String × String) → Column M → Node M
  unfolding dropdown_menu_checkbox_item get
  column_item labels column =
      dropdown_menu_checkbox_item L (some (bool column.get_is_visible)) none (record {
        class_name = none;
        attrs = ("onCheckedChange", handler λ e. column.toggle_visibility (arg_flag e.value)) ∷ [];
        children = text (or_else (get column.id labels) column.id);
      })

  unfoldable pub column_menu : List (String × String) → List (Column M) → Node M
  unfolding column_item dropdown_menu dropdown_menu_trigger dropdown_menu_content button
      dropdown_menu_label dropdown_menu_separator
  column_menu labels columns = dropdown_menu L (record {
    class_name = none;
    attrs = [];
    children = many (
        dropdown_menu_trigger L (record {
          class_name = none;
          attrs = ("asChild", bool true) ∷ [];
          children = button L (some "outline") none none (record {
            class_name = some "sm:ml-auto";
            attrs = ("type", str "button") ∷ [];
            children = many (
                icon "columns" (("aria-hidden", str "true") ∷ [])
                ∷ text "Colunas"
                ∷ icon "chevronDown" (("aria-hidden", str "true") ∷ [])
                ∷ []);
          });
        })
        ∷ dropdown_menu_content L (some "end") none (record {
          class_name = some "min-w-56";
          attrs = [];
          children = many (
              dropdown_menu_label L none
                (record { class_name = none; attrs = []; children = text "Exibir colunas" })
              ∷ dropdown_menu_separator L
                  (record { class_name = none; attrs = []; children = nothing })
              ∷ many (map (column_item labels) columns)
              ∷ []);
        })
        ∷ []);
  })
