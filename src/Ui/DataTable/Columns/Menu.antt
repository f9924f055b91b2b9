-- ===== src/Ui/DataTable/Columns/Menu.antt =====
-- The menu of the columns that can be hidden.
use mathlib.Core.List.{append-nil}
use opanel.Common.{
  String, Bool, Option, some, List, [], ◌∷◌, ◌++◌, map, filter, ◌&&◌, ◌≡◌, refl, ap, ◌∙◌, or_else,
}
use opanel.Dom.{Attrs, Value, bool, flag, many, texts, get, spread, run_handler}
use opanel.Dom.Entries.{entries}
use opanel.Ui.Cn.{ClassLibs}
use opanel.Ui.Part.{part}
use opanel.Ui.Icons.{icon}
use opanel.Ui.Button.{button}
use opanel.Ui.DropdownMenu.{
  dropdown_menu, dropdown_menu_trigger, dropdown_menu_content, dropdown_menu_checkbox_item,
  dropdown_menu_label, dropdown_menu_separator,
}
use opanel.Ui.DataTable.{ReactTable, Column}
use opanel.Ui.DataTable.Columns.{hideable_columns, column_item, column_menu}

module _ {M : Type 0} where
  -- What an entry shows, whether it is checked, and what happens when it is set to a flag.
  abbrev pub entry : Bool → Attrs M × List String → List String × Option (Value M) × List M
  entry on item = (
    item.1,
    get "checked" item.0,
    run_handler (get "onCheckedChange" item.0) (record { prevent_default = []; value = flag on }),
  )

  abbrev pub column_entry :
      List (String × String) → Bool → Column M → List String × Option (Value M) × List M
  column_entry labels on column = (
    or_else (get column.id labels) column.id ∷ [],
    some (bool column.get_is_visible),
    column.toggle_visibility on,
  )

entries-column_items :
    {M : Type 0} (L : ClassLibs) (labels : List (String × String)) (on : Bool)
    (columns : List (Column M))
    → map
        (entry on)
        (entries "DropdownMenu.CheckboxItem" (many (map (column_item L labels) columns)))
      ≡ map (column_entry labels on) columns
unfolding entries texts column_item dropdown_menu_checkbox_item icon get spread
entries-column_items L labels on [] = refl
entries-column_items L labels on (column ∷ columns) =
    ap (λ rest. column_entry labels on column ∷ rest) (entries-column_items L labels on columns)

-- The menu has an entry for each column that may be hidden and has data of its own, in order, with its
-- label or else its name; the entry is checked while the column is visible and shows or hides it.
pub entries-column_menu :
    {M : Type 0} (L : ClassLibs) (labels : List (String × String)) (on : Bool) (t : ReactTable M)
    → map
        (entry on)
        (entries "DropdownMenu.CheckboxItem" (column_menu L labels (hideable_columns t)))
      ≡ map
          (column_entry labels on)
          (filter (λ column. column.get_can_hide && column.accessor_fn) t.get_all_columns)
unfolding entries column_menu hideable_columns dropdown_menu dropdown_menu_trigger
    dropdown_menu_content dropdown_menu_label dropdown_menu_separator button icon part
entries-column_menu L labels on t =
    let items = many (map (column_item L labels) (hideable_columns t)) in
    let found = entries "DropdownMenu.CheckboxItem" items in
    ap (map (entry on)) (append-nil (found ++ []) ∙ append-nil found)
    ∙ entries-column_items L labels on (hideable_columns t)
