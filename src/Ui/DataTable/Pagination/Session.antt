-- ===== src/Ui/DataTable/Pagination/Session.antt =====
-- A table over time: the buttons and the select of its pagination, with the documented behaviour of
-- TanStack's pagination as the laws of a store.
use opanel.Common.{
  ℕ, zero, suc, ◌+◌, ◌-◌, ◌*◌, ◌/◌, ◌≤◌, ◌<◌, true, none, some, List, [], ◌∷◌, map, any, ltb, ◌==◌,
  ◌≡◌,
}
use opanel.Dom.{fire, typed}
use opanel.Common.Decimal.{decimal}
use opanel.Ui.Cn.{ClassLibs}
use opanel.Ui.DataTable.{ReactTable}
use opanel.Ui.DataTable.Pagination.{
  DataTablePaginationProps, math_max, size_select, data_table_pagination,
}
use opanel.Dom.Press.{buttons, press}

-- The effects at a place, none beyond the end.
abbrev pub effects_at : {M : Type 0} → List (List M) → ℕ → List M
effects_at [] i = []
effects_at (e ∷ rest) zero = e
effects_at (e ∷ rest) (suc i) = effects_at rest i

-- The state of the package, what it hands to a render, and what an effect does to it.
pub record TableStore (M S : Type 0) : Type 0 where
  pub view : S → ReactTable M
  pub run : M → S → S

module _ {M S : Type 0} (store : TableStore M S) where
  unfoldable pub run_all : List M → S → S
  run_all [] s = s
  run_all (m ∷ rest) s = run_all rest (store.run m s)

  abbrev pub index : S → ℕ
  index s = (store.view s).page_index

  abbrev pub pages : S → ℕ
  pages s = (store.view s).get_page_count

  abbrev pub size : S → ℕ
  size s = (store.view s).page_size

  abbrev pub rows : S → ℕ
  rows s = (store.view s).filtered_rows

  -- A command moves to a page and leaves the rows and the page size.
  abbrev pub MovesTo : S → List M → ℕ → Type 0
  MovesTo s command i =
      let t = run_all command s in (index t ≡ i) × (size t ≡ size s) × (rows t ≡ rows s)

  -- What the package documents: the pages that there are and which way one can go, the four moves,
  -- and that a new page size keeps the first row of the page in view.
  pub record PagingLaws : Type 0 where
    pub page_count : (s : S) → 0 < size s → pages s ≡ (rows s + (size s - 1)) / size s
    pub can_previous : (s : S) → (store.view s).get_can_previous_page ≡ ltb 0 (index s)
    pub can_next : (s : S) → (store.view s).get_can_next_page ≡ ltb (suc (index s)) (pages s)
    pub first : (s : S) → MovesTo s (store.view s).first_page 0
    pub previous : (s : S) → MovesTo s (store.view s).previous_page (index s - 1)
    pub next : (s : S) → MovesTo s (store.view s).next_page (suc (index s))
    pub last : (s : S) → MovesTo s (store.view s).last_page (pages s - 1)
    pub resize :
        (s : S) (n : ℕ)
        → 0 < n
        → let t = run_all ((store.view s).set_page_size (some n)) s in
          (index t ≡ size s * index s / n) × (size t ≡ n) × (rows t ≡ rows s)

  -- The page that is shown is one of those that the label counts.
  abbrev pub IsInRange : S → Type 0
  IsInRange s = (0 < size s) × (suc (index s) ≤ math_max (pages s) 1)

-- What the pagination is given besides the table.
module _ {M S : Type 0} (L : ClassLibs) (store : TableStore M S) (sizes : List ℕ) where
  abbrev pub shown : S → DataTablePaginationProps M
  shown s = record { table = store.view s; page_size_options = some sizes; show_selection = none }

  -- The state after a click on a button of the pagination, counted from the left, and after the item
  -- of a size is chosen.
  unfoldable pub clicked : ℕ → S → S
  clicked i s =
      run_all store (effects_at (map press (buttons (data_table_pagination L (shown s)))) i) s

  unfoldable pub resized : ℕ → S → S
  resized n s =
      run_all store
        (fire "onValueChange" (size_select L (store.view s) sizes)
          (record { prevent_default = []; value = typed (decimal n) }))
        s

  pub data Step (s : S) : S → Type 0 where
    click_button : (i : ℕ) → Step s (clicked i s)
    choose_size : (n : ℕ) → any (λ m. m == n) sizes ≡ true → Step s (resized n s)

  -- Any sequence of uses of the pagination.
  pub data Reaches (s : S) : S → Type 0 where
    here : Reaches s s
    after : {t u : S} → Reaches s t → Step t u → Reaches s u

  -- Clicks on one button, one after another.
  unfoldable pub clicks : ℕ → ℕ → S → S
  unfolding clicked
  clicks i zero s = s
  clicks i (suc k) s = clicks i k (clicked i s)
