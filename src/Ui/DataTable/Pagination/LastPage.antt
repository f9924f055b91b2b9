-- ===== src/Ui/DataTable/Pagination/LastPage.antt =====
-- Going through all the pages of a table.
use opanel.Common.{ℕ, zero, suc, ◌-◌, ◌≤◌, Bool, true, false, List, ◌≡◌, refl, ap, ◌∙◌, ltb, arith}
use opanel.Ui.Cn.{ClassLibs}
use opanel.Ui.DataTable.Pagination.{math_max}
use opanel.Ui.DataTable.Pagination.Buttons.{press-buttons}
use opanel.Ui.DataTable.Pagination.Session.{
  TableStore, PagingLaws, run_all, index, pages, IsInRange, shown, clicked, clicks,
}
use opanel.Ui.DataTable.Pagination.InRange.{same_pages, clicked-IsInRange}

at_end : (i c : ℕ) → suc i ≤ math_max c 1 → 0 ≡ c - suc i → suc i ≡ math_max c 1
at_end i c h k = ground (arith, h, k)

goes_on : (i c k : ℕ) {can : Bool} → can ≡ ltb (suc i) c → suc k ≡ c - suc i → can ≡ true
goes_on i c k can h = ground (arith, can, h)

stops : (i c : ℕ) {can : Bool} → can ≡ ltb (suc i) c → suc i ≡ math_max c 1 → can ≡ false
stops i c can h = ground (arith, can, h)

module _ {M S : Type 0} (L : ClassLibs) (store : TableStore M S) (sizes : List ℕ) where
  clicked-next :
      (s : S)
      → (store.view s).get_can_next_page ≡ true
      → clicked L store sizes 2 s ≡ run_all store (store.view s).next_page s
  unfolding clicked
  clicked-next s can = rw (press-buttons L (shown L store sizes s)) (rw can refl)

  -- Clicking the button of the next page as often as there are pages left shows the last page, out of
  -- as many pages as before, where the button is disabled.
  pub clicks-next :
      (s : S) (k : ℕ)
      → PagingLaws store
      → IsInRange store s
      → k ≡ pages store s - suc (index store s)
      → let t = clicks L store sizes 2 k s in
        (suc (index store t) ≡ math_max (pages store s) 1)
        × (pages store t ≡ pages store s)
        × ((store.view t).get_can_next_page ≡ false)
  unfolding clicks
  clicks-next s zero laws h left =
      let end = at_end (index store s) (pages store s) h.1 left in
      (end, refl, stops (index store s) (pages store s) (laws.can_next s) end)
  clicks-next s (suc k) laws h left =
      let can = goes_on (index store s) (pages store s) k (laws.can_next s) left in
      let next = clicked-next s can in
      let moved = laws.next s in
      let same = ap (pages store) next ∙ same_pages store laws s _ h.0 moved.1 moved.2 in
      let there = ap (index store) next ∙ moved.0 in
      let rest =
        clicks-next (clicked L store sizes 2 s) k laws (clicked-IsInRange L store sizes s 2 laws h)
          (omega (arith, left, same, there)) in
      (rest.0 ∙ ap (λ c. math_max c 1) same, rest.1 ∙ same, rest.2)
