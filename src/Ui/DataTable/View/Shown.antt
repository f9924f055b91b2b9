-- ===== src/Ui/DataTable/View/Shown.antt =====
-- What the data table shows of the rows and the columns of its table.
use mathlib.Core.List.{append-nil}
use opanel.Common.{
  ℕ, String, Bool, true, false, List, [], ◌∷◌, ◌++◌, map, ◌≡◌, refl, ap, suc, ltb, length, arith,
  ◌∙◌, if◌then◌else◌,
}
use opanel.Dom.{Node, nothing, many, texts}
use opanel.Ui.Cn.{ClassLibs}
use opanel.Ui.Part.{part}
use opanel.Ui.Empty.{empty, empty_header, empty_title}
use opanel.Ui.Table.{table, table_header, table_body, table_row, table_head, table_cell}
use opanel.Ui.DataTable.{ReactTable, Row, Header, HeaderGroup}
use opanel.Ui.DataTable.View.{
  head_cell, head_row, body_cell, body_row, empty_row, body_rows, table_view,
}

-- The members of all lists, in order.
abbrev pub concat : {A : Type 0} → List (List A) → List A
concat [] = []
concat (xs ∷ rest) = xs ++ concat rest

module _ {M : Type 0} where
  -- What the caller's definitions show in the heads of the columns, in the cells of a row, and in all.
  abbrev pub head_texts : List (Header M) → List String
  head_texts headers =
      concat (map (λ h. if h.is_placeholder then [] else texts h.flex_render) headers)

  abbrev pub row_texts : Row M → List String
  row_texts row = concat (map (λ c. texts c.flex_render) row.get_visible_cells)

  abbrev pub rows_texts : List (Row M) → String → List String
  rows_texts [] message = message ∷ []
  rows_texts (row ∷ rows) message = concat (map row_texts (row ∷ rows))

texts-many-map :
    {M A : Type 0} (f : A → Node M) (g : A → List String) (xs : List A)
    → ((x : A) → texts (f x) ≡ g x)
    → texts (many (map f xs)) ≡ concat (map g xs)
unfolding texts
texts-many-map f g [] h = refl
texts-many-map f g (x ∷ xs) h = rw (h x) (rw (texts-many-map f g xs h) refl)

texts-head :
    {M : Type 0} (b : Bool) (node : Node M)
    → texts (if b then nothing else node) ≡ (if b then [] else texts node)
unfolding texts
texts-head true node = refl
texts-head false node = refl

texts-empty_row :
    (M : Type 0) (L : ClassLibs) (span : ℕ) (message : String)
    → texts (empty_row {M = M} L span message) ≡ message ∷ []
unfolding texts empty_row table_row table_cell part empty empty_header empty_title
texts-empty_row M L span message = refl

some_row : (n : ℕ) → ltb 0 (suc n) ≡ true
some_row n = ground arith

module _ {M : Type 0} (L : ClassLibs) where
  texts-head_cell :
      (h : Header M)
      → texts (head_cell L h) ≡ (if h.is_placeholder then [] else texts h.flex_render)
  unfolding texts head_cell table_head part
  texts-head_cell h = texts-head h.is_placeholder h.flex_render

  texts-head_row : (g : HeaderGroup M) → texts (head_row L g) ≡ head_texts g.headers
  unfolding texts head_row table_row part
  texts-head_row g = texts-many-map (head_cell L) _ g.headers texts-head_cell

  texts-body_row : (r : Row M) → texts (body_row L r) ≡ row_texts r
  unfolding texts body_row table_row part body_cell table_cell
  texts-body_row r = texts-many-map (body_cell L) _ r.get_visible_cells λ c. refl

  texts-body_rows :
      (rows : List (Row M)) (span : ℕ) (message : String)
      → texts (body_rows L rows span message) ≡ rows_texts rows message
  unfolding body_rows
  texts-body_rows [] span message = texts-empty_row M L span message
  texts-body_rows (row ∷ rows) span message =
      rw (some_row (length rows))
        (texts-many-map (body_row L) row_texts (row ∷ rows) texts-body_row)

  -- The table shows the heads of the columns that are no placeholders, then the cells of each row, and
  -- the message instead exactly when there are no rows.
  pub texts-table_view :
      (t : ReactTable M) (span : ℕ) (message : String)
      → texts (table_view L t span message)
        ≡ concat (map (λ g. head_texts g.headers) t.get_header_groups)
          ++ rows_texts t.row_model_rows message
  unfolding texts table_view table table_header table_body part
  texts-table_view t span message =
      ap (λ heads. heads ++ (texts (body_rows L t.row_model_rows span message) ++ []))
        (texts-many-map (head_row L) (λ g. head_texts g.headers) t.get_header_groups texts-head_row)
      ∙ ap (λ shown. concat (map (λ g. head_texts g.headers) t.get_header_groups) ++ shown)
          (append-nil (texts (body_rows L t.row_model_rows span message))
            ∙ texts-body_rows t.row_model_rows span message)
