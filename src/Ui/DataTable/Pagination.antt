-- ===== src/Ui/DataTable/Pagination.antt =====
-- app/frontend/components/ui/table/data-table-pagination.tsx
pub mod Buttons
pub mod InRange
pub mod LastPage
pub mod PageSize
pub mod Session
use opanel.Common.{
  ℕ, suc, String, Bool, false, not, Option, none, some, List, [], ◌∷◌, map, ltb, if◌then◌else◌,
  or_else,
}
use opanel.Common.Decimal.{decimal, number_of}
use opanel.Dom.{
  Node, nothing, text, element, host, str, bool, handler, many, number, template, Arg, click, flag,
  typed, chosen,
}
use opanel.Ui.Cn.{ClassLibs}
use opanel.Ui.Icons.{icon}
use opanel.Ui.Button.{button}
use opanel.Ui.Select.{select, select_trigger, select_value, select_content, select_item}
use opanel.Ui.DataTable.{ReactTable}

pub record DataTablePaginationProps (M : Type 0) : Type 0 where
  pub table : ReactTable M
  pub page_size_options : Option (List ℕ)
  pub show_selection : Option Bool

-- The text that `onValueChange` of a select is called with.
abbrev pub arg_text : Arg → String
arg_text click = ""
arg_text (flag b) = ""
arg_text (typed s) = s
arg_text (chosen ns) = ""

-- `Math.max(a, b)`
abbrev pub math_max : ℕ → ℕ → ℕ
math_max a b = if ltb a b then b else a

module _ {M : Type 0} where
  unfoldable pub rows_shown : ReactTable M → Bool → String
  rows_shown table show_selection =
      if show_selection
      then template (
          decimal table.filtered_selected_rows
          ∷ " de "
          ∷ decimal table.filtered_rows
          ∷ " linha(s) selecionada(s)."
          ∷ [])
      else template (decimal table.filtered_rows ∷ " linha(s)." ∷ [])

  unfoldable pub page_label : ReactTable M → Node M
  page_label table =
      element (host "div") (("className", str "min-w-32 text-center font-extralight") ∷ []) (
        many (
          text "Página "
          ∷ number (suc table.page_index)
          ∷ text " de "
          ∷ number (math_max table.get_page_count 1)
          ∷ []))

module _ {M : Type 0} (L : ClassLibs) where
  unfoldable pub size_item : ℕ → Node M
  unfolding select_item
  size_item page_size = select_item L (record {
    class_name = none;
    attrs = ("value", str (decimal page_size)) ∷ [];
    children = number page_size;
  })

  unfoldable pub size_select : ReactTable M → List ℕ → Node M
  unfolding select size_item
  size_select table page_size_options = select L (record {
    class_name = none;
    attrs =
        ("value", str (decimal table.page_size))
        ∷ ("onValueChange", handler λ e. table.set_page_size (number_of (arg_text e.value)))
        ∷ [];
    children = many (
        select_trigger L none (record {
          class_name = some "w-24 px-3 py-2";
          attrs = ("aria-label", str "Linhas por página") ∷ [];
          children = select_value L (record { class_name = none; attrs = []; children = nothing });
        })
        ∷ select_content L none none (record {
          class_name = none;
          attrs = ("side", str "top") ∷ [];
          children = many (map size_item page_size_options);
        })
        ∷ []);
  })

  unfoldable pub page_button : List M → Bool → String → Node M → Node M
  unfolding button
  page_button on_click disabled label children =
      button L (some "outline") (some "icon") none (record {
        class_name = none;
        attrs =
            ("type", str "button")
            ∷ ("onClick", handler λ e. on_click)
            ∷ ("disabled", bool disabled)
            ∷ ("aria-label", str label)
            ∷ [];
        children = children;
      })

  abbrev chevron : String → Node M
  chevron name = icon name (("aria-hidden", str "true") ∷ [])

  abbrev close_chevron : String → Node M
  close_chevron name = icon name (("className", str "-mr-2") ∷ ("aria-hidden", str "true") ∷ [])

  unfoldable pub page_buttons : ReactTable M → Node M
  unfolding page_button
  page_buttons table = element (host "div") (("className", str "grid grid-cols-4 gap-2") ∷ []) (
      many (
        page_button table.first_page (not table.get_can_previous_page) "Primeira página"
          (many (close_chevron "chevronLeft" ∷ chevron "chevronLeft" ∷ []))
        ∷ page_button table.previous_page (not table.get_can_previous_page) "Página anterior"
            (chevron "chevronLeft")
        ∷ page_button table.next_page (not table.get_can_next_page) "Próxima página"
            (chevron "chevronRight")
        ∷ page_button table.last_page (not table.get_can_next_page) "Última página"
            (many (close_chevron "chevronRight" ∷ chevron "chevronRight" ∷ []))
        ∷ []))

  unfoldable pub data_table_pagination : DataTablePaginationProps M → Node M
  unfolding rows_shown size_select page_label page_buttons
  data_table_pagination p =
      element (host "div")
        ((
          "className",
          str "flex flex-col gap-4 px-2 text-lg sm:flex-row sm:items-center sm:justify-between",
        )
          ∷ [])
        (many (
          element (host "div") (("className", str "font-extralight text-muted-foreground") ∷ [])
            (text (rows_shown p.table (or_else p.show_selection false)))
          ∷ element (host "div")
              (("className", str "flex flex-col gap-3 sm:flex-row sm:items-center") ∷ [])
              (many (
                element (host "div") (("className", str "flex items-center gap-2") ∷ []) (
                  many (
                    element (host "span")
                      (("className", str "whitespace-nowrap font-extralight") ∷ [])
                      (text "Linhas por página")
                    ∷ size_select p.table (or_else p.page_size_options (10 ∷ 20 ∷ 30 ∷ 50 ∷ []))
                    ∷ []))
                ∷ page_label p.table
                ∷ page_buttons p.table
                ∷ []))
          ∷ []))
