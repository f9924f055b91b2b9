-- ===== src/Ui/DataTable/Pagination/PageSize.antt =====
-- The select of the page size: what its items stand for.
use opanel.Common.{ℕ, String, Option, some, or_else, List, [], ◌∷◌, ◌≡◌, refl, ◌↔◌, sym, ap, ◌∙◌}
use opanel.Common.Decimal.{decimal, number_of}
use opanel.Common.Decimal.RoundTrip.{number_of-decimal}
use opanel.Dom.{Value, str, get, spread, root_attrs, fire, typed, texts}
use opanel.Ui.Cn.{ClassLibs}
use opanel.Ui.Icons.{icon}
use opanel.Ui.Part.{part}
use opanel.Ui.Select.{select, select_item}
use opanel.Ui.DataTable.{ReactTable}
use opanel.Ui.DataTable.Pagination.{size_item, size_select}

-- A text as the value of an attribute.
abbrev pub text_of : {M : Type 0} → Option (Value M) → String
text_of (some (str s)) = s
text_of _ = ""

some_inj : {A : Type 0} {a b : A} → some a ≡ some b → a ≡ b
some_inj {a = a} h = ap (λ o. or_else o a) h

decimal_inj : (m n : ℕ) → decimal m ≡ decimal n → m ≡ n
decimal_inj m n h = some_inj (sym (number_of-decimal m) ∙ ap number_of h ∙ number_of-decimal n)

pub fire-size_select :
    {M : Type 0} (L : ClassLibs) (table : ReactTable M) (sizes : List ℕ) (n : ℕ)
    → fire "onValueChange"
        (size_select L table sizes)
        (record { prevent_default = []; value = typed (decimal n) })
      ≡ table.set_page_size (some n)
unfolding size_select select get spread
fire-size_select L table sizes n = ap table.set_page_size (number_of-decimal n)

-- The item of a page size shows the decimals of that number and nothing else; choosing it sets that
-- number as the page size, and the value of the select is the item's exactly when its number is the page
-- size.
pub size_select-size_item :
    {M : Type 0} (L : ClassLibs) (table : ReactTable M) (sizes : List ℕ) (n : ℕ)
    → let value = text_of {M = M} (get "value" (root_attrs (size_item L n))) in
      (texts (size_item {M = M} L n) ≡ decimal n ∷ [])
      × (fire "onValueChange"
            (size_select L table sizes)
            (record { prevent_default = []; value = typed value })
          ≡ table.set_page_size (some n))
      × ((text_of {M = M} (get "value" (root_attrs (size_select L table sizes))) ≡ value)
          ↔ (table.page_size ≡ n))
unfolding size_item size_select select select_item get spread texts icon part
size_select-size_item {M} L table sizes n =
    (refl, fire-size_select L table sizes n, (decimal_inj table.page_size n, ap decimal))
