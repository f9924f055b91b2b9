-- ===== src/Ui/DataTable/ColumnHeader.antt =====
-- app/frontend/components/ui/table/data-table-column-header.tsx
pub mod Entries
use opanel.Common.{String, Bool, true, false, not, Option, none, some, List, [], ◌∷◌, if◌then◌else◌}
use opanel.Dom.{Node, nothing, text, element, host, str, bool, handler, many, show_if, template}
use opanel.Ui.Cn.{ClassLibs, cn, lit, given}
use opanel.Ui.Icons.{icon}
use opanel.Ui.Button.{button}
use opanel.Ui.DropdownMenu.{
  dropdown_menu, dropdown_menu_trigger, dropdown_menu_content, dropdown_menu_item,
  dropdown_menu_separator,
}
use opanel.Ui.DataTable.{Column, SortDirection, asc, desc}

pub record DataTableColumnHeaderProps (M : Type 0) : Type 0 where
  pub column : Column M
  pub title : String
  pub class_name : Option String

abbrev pub sort_icon : Option SortDirection → String
sort_icon (some asc) = "chevronUp"
sort_icon (some desc) = "chevronDown"
sort_icon none = "arrowsVertical"

module _ {M : Type 0} (L : ClassLibs) where
  abbrev hidden_icon : String → Node M
  hidden_icon name = icon name (("aria-hidden", str "true") ∷ [])

  -- `<DropdownMenuItem onSelect={…}>` with an icon and a text.
  unfoldable pub menu_item : List M → String → String → Node M
  unfolding dropdown_menu_item
  menu_item on_select name label = dropdown_menu_item L none none (record {
    class_name = none;
    attrs = ("onSelect", handler λ e. on_select) ∷ [];
    children = many (hidden_icon name ∷ text label ∷ []);
  })

  unfoldable pub sort_trigger : DataTableColumnHeaderProps M → Node M
  unfolding dropdown_menu_trigger button
  sort_trigger p = dropdown_menu_trigger L (record {
    class_name = none;
    attrs = ("asChild", bool true) ∷ [];
    children = button L (some "ghost") none none (record {
      class_name = some "-ml-4 px-4 py-2";
      attrs =
          ("type", str "button")
          ∷ ("aria-label", str (template ("Ordenar coluna " ∷ p.title ∷ [])))
          ∷ [];
      children = many (text p.title ∷ hidden_icon (sort_icon p.column.get_is_sorted) ∷ []);
    });
  })

  unfoldable pub sort_menu : Column M → Node M
  unfolding menu_item dropdown_menu_content dropdown_menu_separator
  sort_menu column = dropdown_menu_content L (some "start") none (record {
    class_name = some "min-w-48";
    attrs = [];
    children = many (
        menu_item (column.toggle_sorting false) "chevronUp" "Crescente"
        ∷ menu_item (column.toggle_sorting true) "chevronDown" "Decrescente"
        ∷ show_if column.get_can_hide (
            many (
              dropdown_menu_separator L
                (record { class_name = none; attrs = []; children = nothing })
              ∷ menu_item (column.toggle_visibility false) "close" "Ocultar coluna"
              ∷ []))
        ∷ []);
  })

  unfoldable pub data_table_column_header : DataTableColumnHeaderProps M → Node M
  unfolding sort_trigger sort_menu dropdown_menu
  data_table_column_header p =
      if not p.column.get_can_sort
      then element (host "span")
          (("className", str (cn L (lit "text-lg font-medium" ∷ given p.class_name ∷ []))) ∷ [])
          (text p.title)
      else element (host "div")
          (("className", str (cn L (lit "flex items-center gap-2" ∷ given p.class_name ∷ []))) ∷ [])
          (dropdown_menu L (record {
            class_name = none;
            attrs = [];
            children = many (sort_trigger p ∷ sort_menu p.column ∷ []);
          }))
