-- ===== src/Ui/DataTable/ColumnHeader/Entries.antt =====
-- What the head of a column offers.
use opanel.Common.{
  String, true, false, List, [], ◌∷◌, map, ◌≡◌, refl, inl, inr, Bool-cases, if◌then◌else◌,
}
use opanel.Dom.{Attrs, texts, get, spread, run_handler, click}
use opanel.Dom.Entries.{entries}
use opanel.Ui.Cn.{ClassLibs}
use opanel.Ui.Part.{part}
use opanel.Ui.Icons.{icon}
use opanel.Ui.Button.{button}
use opanel.Ui.DropdownMenu.{
  dropdown_menu, dropdown_menu_trigger, dropdown_menu_content, dropdown_menu_item,
  dropdown_menu_separator,
}
use opanel.Ui.DataTable.{Column}
use opanel.Ui.DataTable.ColumnHeader.{
  DataTableColumnHeaderProps, menu_item, sort_trigger, sort_menu, data_table_column_header,
}

module _ {M : Type 0} where
  -- What an item of a menu shows, and what happens when it is selected.
  abbrev pub item : Attrs M × List String → List String × List M
  item entry = (
    entry.1,
    run_handler (get "onSelect" entry.0) (record { prevent_default = []; value = click }),
  )

  abbrev pub offers : Column M → List (List String × List M)
  offers column =
      ("Crescente" ∷ [], column.toggle_sorting false)
      ∷ ("Decrescente" ∷ [], column.toggle_sorting true)
      ∷ (if column.get_can_hide
          then ("Ocultar coluna" ∷ [], column.toggle_visibility false) ∷ []
          else [])

-- The head of a column offers to sort it either way where it can be sorted, and then also to hide it
-- where it can be hidden; a column that cannot be sorted offers nothing.
pub entries-column_header :
    {M : Type 0} (L : ClassLibs) (p : DataTableColumnHeaderProps M)
    → map item (entries "DropdownMenu.Item" (data_table_column_header L p))
      ≡ (if p.column.get_can_sort then offers p.column else [])
unfolding entries data_table_column_header sort_trigger sort_menu menu_item dropdown_menu
    dropdown_menu_trigger dropdown_menu_content dropdown_menu_item dropdown_menu_separator button
    icon part texts get spread
entries-column_header L p = elim (Bool-cases p.column.get_can_sort) [
  | inl sorts ↦ rw sorts (elim (Bool-cases p.column.get_can_hide) [
    | inl hides ↦ rw hides refl
    | inr kept ↦ rw kept refl
  ])
  | inr fixed ↦ rw fixed refl
]
