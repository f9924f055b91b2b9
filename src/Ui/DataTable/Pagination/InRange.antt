-- ===== src/Ui/DataTable/Pagination/InRange.antt =====
-- The page that the pagination shows, over any use of it.
use native.Mathlib.Nat.{
  le-div_iff_mul-le, div-lt_iff_lt-mul, lt-div-mul-add, mul_comm, suc-mul, div-eq_of_lt, mul-zero,
  zero-div,
}
use opanel.Common.{
  ℕ, zero, suc, ◌+◌, ◌-◌, ◌*◌, ◌/◌, ◌≤◌, ◌<◌, Bool, true, false, some, List, [], ◌∷◌, any, ltb,
  ◌==◌, ◌≡◌, refl, sym, ap, ◌∙◌, All, arith,
}
use opanel.Ui.Cn.{ClassLibs}
use opanel.Ui.DataTable.Pagination.{math_max}
use opanel.Ui.DataTable.Pagination.Buttons.{when, press-buttons}
use opanel.Ui.DataTable.Pagination.PageSize.{fire-size_select}
use opanel.Ui.DataTable.Pagination.Session.{
  TableStore, PagingLaws, run_all, index, size, pages, rows, MovesTo, IsInRange, effects_at, shown,
  clicked, resized, click_button, choose_size, Reaches, here, after,
}

below_max : (i c : ℕ) → 0 < c → suc i ≤ math_max c 1 → i < c
below_max i c hc h = ground arith

max_above : (i c : ℕ) → i < c → suc i ≤ math_max c 1
max_above i c h = ground arith

first_of_none : (i c : ℕ) → c ≡ 0 → suc i ≤ math_max c 1 → i ≡ 0
first_of_none i c hc h = ground arith

only_page : (i c : ℕ) → i ≡ 0 → suc i ≤ math_max c 1
only_page i c h = ground arith

-- A page that there is begins at a row that there is.
first_row_lt : (i k r : ℕ) → 0 < k → suc i ≤ math_max ((suc r + (k - 1)) / k) 1 → k * i < suc r
first_row_lt i k r hk h =
    let pages = (suc r + (k - 1)) / k in
    let some_page = (le-div_iff_mul-le {k = k} {x = 1} {y = suc r + (k - 1)} hk).1 (omega arith) in
    let fits =
      (le-div_iff_mul-le {k = k} {x = suc i} {y = suc r + (k - 1)} hk).0
        (below_max i pages some_page h) in
    omega (arith, fits, suc-mul i k, mul_comm k i)

-- The first row of a page that there is stays on a page that there is, whatever the new size.
page_of_first_row :
    (i k n r : ℕ)
    → 0 < k
    → 0 < n
    → suc i ≤ math_max ((r + (k - 1)) / k) 1
    → suc (k * i / n) ≤ math_max ((r + (n - 1)) / n) 1
page_of_first_row i k n zero hk hn h =
    let no_pages = div-eq_of_lt {n = 0 + (k - 1)} {m = k} (omega arith) in
    let at_start = first_of_none i _ no_pages h in
    let at_row = ap (λ j. k * j / n) at_start ∙ ap (λ j. j / n) (mul-zero k) ∙ zero-div n in
    only_page (k * i / n) ((0 + (n - 1)) / n) at_row
page_of_first_row i k n (suc r) hk hn h =
    let pages = (suc r + (n - 1)) / n in
    let row = first_row_lt i k r hk h in
    let last = lt-div-mul-add {a = suc r + (n - 1)} {b = n} hn in
    max_above (k * i / n) pages
      ((div-lt_iff_lt-mul {k = n} {x = k * i} {y = pages} hn).1 (omega (arith, last, row)))

in_range_eq : (i j c d : ℕ) → i ≡ j → c ≡ d → suc j ≤ math_max d 1 → suc i ≤ math_max c 1
in_range_eq i j c d hi hc h = ground (arith, hi, hc, h)

not_before : (i c : ℕ) → suc i ≤ math_max c 1 → suc (i - 1) ≤ math_max c 1
not_before i c h = ground (arith, h)

not_past : (i c : ℕ) {can : Bool} → can ≡ ltb (suc i) c → can ≡ true → suc (suc i) ≤ math_max c 1
not_past i c h able = ground (arith, h, able)

at_last : (c : ℕ) → suc (c - 1) ≤ math_max c 1
at_last c = ground arith

offered_pos :
    (n : ℕ) (sizes : List ℕ) → All (λ m. 0 < m) sizes → any (λ m. m == n) sizes ≡ true → 0 < n
offered_pos n [] pos h = absurd (ground (arith, h))
offered_pos n (m ∷ sizes) pos h = ground (arith, pos.0, h, offered_pos n sizes pos.1)

module _ {M S : Type 0} (store : TableStore M S) (laws : PagingLaws store) where
  pub same_pages :
      (s t : S)
      → 0 < size store s
      → size store t ≡ size store s
      → rows store t ≡ rows store s
      → pages store t ≡ pages store s
  same_pages s t h hk hr =
      laws.page_count t (omega (arith, h, hk))
      ∙ ap (λ r. (r + (size store t - 1)) / size store t) hr
      ∙ ap (λ k. (rows store s + (k - 1)) / k) hk
      ∙ sym (laws.page_count s h)

  -- A command that moves to a page that there is keeps the page in range.
  moved :
      (s : S) (command : List M) (i : ℕ)
      → MovesTo store s command i
      → IsInRange store s
      → suc i ≤ math_max (pages store s) 1
      → IsInRange store (run_all store command s)
  moved s command i m h g =
      let t = run_all store command s in
      let kept = same_pages s t h.0 m.1 m.2 in
      (
        omega (arith, h.0, m.1),
        in_range_eq (index store t) i (pages store t) (pages store s) m.0 kept g,
      )

  moved_when :
      (s : S) (can : Bool) (command : List M) (i : ℕ)
      → MovesTo store s command i
      → IsInRange store s
      → (can ≡ true → suc i ≤ math_max (pages store s) 1)
      → IsInRange store (run_all store (when can command) s)
  unfolding run_all
  moved_when s true command i m h g = moved s command i m h (g refl)
  moved_when s false command i m h g = h

  idle_command : (s : S) → IsInRange store s → IsInRange store (run_all store [] s)
  unfolding run_all
  idle_command s h = h

  -- A new page size, where the package is given a positive one.
  set_page_size-IsInRange :
      (s : S) (n : ℕ)
      → 0 < n
      → IsInRange store s
      → IsInRange store (run_all store ((store.view s).set_page_size (some n)) s)
  set_page_size-IsInRange s n hn h =
      let t = run_all store ((store.view s).set_page_size (some n)) s in
      let law = laws.resize s n hn in
      let before =
        in_range_eq (index store s) (index store s) _ (pages store s) refl
          (sym (laws.page_count s h.0)) h.1 in
      let first = page_of_first_row (index store s) (size store s) n (rows store s) h.0 hn before in
      let pos : 0 < size store t = omega (arith, law.1, hn) in
      let after =
        laws.page_count t pos
        ∙ ap (λ r. (r + (size store t - 1)) / size store t) law.2
        ∙ ap (λ k. (rows store s + (k - 1)) / k) law.1 in
      (pos, in_range_eq (index store t) _ (pages store t) _ law.0 after first)

  moves-IsInRange :
      (s : S) (i : ℕ)
      → IsInRange store s
      → let table = store.view s in
        IsInRange store (
          run_all store
            (effects_at
              (when table.get_can_previous_page table.first_page
                ∷ when table.get_can_previous_page table.previous_page
                ∷ when table.get_can_next_page table.next_page
                ∷ when table.get_can_next_page table.last_page
                ∷ [])
              i)
            s)
  moves-IsInRange s zero h =
      let table = store.view s in
      moved_when s table.get_can_previous_page table.first_page 0 (laws.first s) h
        λ can. only_page 0 (pages store s) refl
  moves-IsInRange s (suc zero) h =
      let table = store.view s in
      moved_when s table.get_can_previous_page table.previous_page (index store s - 1)
        (laws.previous s) h λ can. not_before (index store s) (pages store s) h.1
  moves-IsInRange s (suc (suc zero)) h =
      let table = store.view s in
      moved_when s table.get_can_next_page table.next_page (suc (index store s)) (laws.next s) h
        (not_past (index store s) (pages store s) (laws.can_next s))
  moves-IsInRange s (suc (suc (suc zero))) h =
      let table = store.view s in
      moved_when s table.get_can_next_page table.last_page (pages store s - 1) (laws.last s) h
        λ can. at_last (pages store s)
  moves-IsInRange s (suc (suc (suc (suc i)))) h = idle_command s h

module _ {M S : Type 0} (L : ClassLibs) (store : TableStore M S) (sizes : List ℕ) where
  pub clicked-IsInRange :
      (s : S) (i : ℕ)
      → PagingLaws store
      → IsInRange store s
      → IsInRange store (clicked L store sizes i s)
  unfolding clicked
  clicked-IsInRange s i laws h =
      rw (press-buttons L (shown L store sizes s)) (moves-IsInRange store laws s i h)

  resized-IsInRange :
      (s : S) (n : ℕ)
      → PagingLaws store
      → 0 < n
      → IsInRange store s
      → IsInRange store (resized L store sizes n s)
  unfolding resized
  resized-IsInRange s n laws hn h =
      rw (fire-size_select L (store.view s) sizes n) (set_page_size-IsInRange store laws s n hn h)

  -- Whatever is clicked and chosen in the pagination, the page that it shows is one of the pages that
  -- it counts, if it was so and every offered size is positive.
  pub reaches-IsInRange :
      (s t : S)
      → PagingLaws store
      → All (λ m. 0 < m) sizes
      → IsInRange store s
      → Reaches L store sizes s t
      → IsInRange store t
  reaches-IsInRange s t laws pos h here = h
  reaches-IsInRange s t laws pos h (after r (click_button i)) =
      clicked-IsInRange _ i laws (reaches-IsInRange s _ laws pos h r)
  reaches-IsInRange s t laws pos h (after r (choose_size n offered)) =
      resized-IsInRange _ n laws (offered_pos n sizes pos offered)
        (reaches-IsInRange s _ laws pos h r)
