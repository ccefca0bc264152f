-- ===== src/Termui/Table/Draw/Total.antt =====
-- When `Draw` cannot panic.
use gotop.Prelude.{
  ℕ, ◌+◌, ◌<◌, ◌≤◌, ℤ, pos, negsuc, ◌+ℤ◌, ◌≤ℤ◌, List, [], ◌∷◌, none, some, Option-cases, ◌∙◌,
  All-take, All-drop, inl, inr, All, drop, get_elem?-some, Bytes, ◌≡◌, ◌≢◌, refl, length, arith,
}
use gotop.Termui.Geometry.{dx}
use gotop.Termui.Table.{Table}
use gotop.Termui.Table.Draw.{
  Write, Style, cursor, plain, columns, draw_cells, draw_header, paint, is_selected, draw_row,
  draw_rows, draw, draw_body, shown, resize, line_of, columns_of,
}

length-columns : (cur gap : ℤ) (ws : List ℤ) → length (columns cur gap ws) ≡ length ws
unfolding columns
length-columns cur gap [] = refl
length-columns cur gap (w ∷ ws) = omega (arith, length-columns (cur +ℤ w +ℤ gap) gap ws)

draw_header-ne-none :
    (t : Table) (hs : List Bytes) (cols : List (ℤ × ℤ))
    → length hs ≤ length cols
    → draw_header t hs cols ≢ none
unfolding draw_header
draw_header-ne-none t [] cols h = ground arith
draw_header-ne-none t (x ∷ hs) [] h = absurd (omega arith)
draw_header-ne-none t (x ∷ hs) ((w, y) ∷ cols) h = ground (arith, draw_header-ne-none t hs cols)

paint-ne-none : (t : Table) (y : ℤ) (ws : List ℤ) → pos 0 ≤ℤ dx t.inner → paint t y ws ≢ none
unfolding paint
paint-ne-none t y [] h = ground arith
paint-ne-none t y (w ∷ ws) h = ground (arith, paint-ne-none t y ws h)

module _ (trim : Bytes → ℤ → Bytes) where
  draw_cells-ne-none :
      (t : Table) (style : Style) (y : ℤ) (cols : List (ℤ × ℤ)) (row : List Bytes)
      → length cols ≤ length row
      → draw_cells trim t style y cols row ≢ none
  unfolding draw_cells
  draw_cells-ne-none t style y [] row h = ground arith
  draw_cells-ne-none t style y (c ∷ cols) [] h = absurd (omega arith)
  draw_cells-ne-none t style y ((w, x) ∷ cols) (cell ∷ row) h =
      ground (arith, draw_cells-ne-none t style y cols row)

  draw_row-ne-none :
      (cols : List (ℤ × ℤ)) (t : Table) (n : ℕ) (row : List Bytes)
      → pos 0 ≤ℤ dx t.inner
      → length cols ≤ length row
      → t.unique_col < length row
      → draw_row trim cols t n row ≢ none
  unfolding draw_row is_selected
  draw_row-ne-none cols t n row wide cells unique =
      let (item, e) = get_elem?-some row t.unique_col unique in
      ground (
        arith,
        e,
        paint-ne-none t (line_of t n) t.col_widths wide,
        draw_cells-ne-none t plain (line_of t n) cols row cells,
        draw_cells-ne-none t (cursor t.cursor_color) (line_of t n) cols row cells,
      )

  draw_row-keeps :
      (cols : List (ℤ × ℤ)) (t : Table) (n : ℕ) (row : List Bytes) {t' : Table} {ws : List Write}
      → draw_row trim cols t n row ≡ some (t', ws)
      → (t'.inner ≡ t.inner) × (t'.unique_col ≡ t.unique_col)
  unfolding draw_row
  draw_row-keeps cols t n row e = (ground arith, ground arith)

  draw_rows_step :
      (cols : List (ℤ × ℤ)) (t : Table) (n : ℕ) (row : List Bytes) (rows : List (List Bytes))
      {t' : Table} {ws : List Write}
      → draw_row trim cols t n row ≡ some (t', ws)
      → draw_rows trim cols t' (n + 1) rows ≢ none
      → draw_rows trim cols t n (row ∷ rows) ≢ none
  unfolding draw_rows
  draw_rows_step cols t n row rows drawn later = ground (arith, drawn, later)

  draw_rows-ne-none :
      (cols : List (ℤ × ℤ)) (uc : ℕ) (rows : List (List Bytes)) (t : Table) (n : ℕ)
      → t.unique_col ≡ uc
      → pos 0 ≤ℤ dx t.inner
      → All (λ row. (length cols ≤ length row) × (uc < length row)) rows
      → draw_rows trim cols t n rows ≢ none
  draw_rows-ne-none cols uc [] t n same wide h = unfold draw_rows in ground arith
  draw_rows-ne-none cols uc (row ∷ rows) t n same wide (ok, h) =
      elim (Option-cases (draw_row trim cols t n row)) [
        | inl fault ↦ absurd (draw_row-ne-none cols t n row wide ok.0 (rw same ok.1) fault)
        | inr ((t1, ws), drawn) ↦
            let keeps = draw_row-keeps cols t n row drawn in
            let later =
              draw_rows-ne-none cols uc rows t1 (n + 1) (keeps.1 ∙ same) (rw (keeps.0) wide) h in
            draw_rows_step cols t n row rows drawn later
      ]

-- What `Draw` needs of the table, with the widths that `ColResizer` gives.
pub record IsDrawable (t : Table) : Type 0 where
  pub wide : pos 0 ≤ℤ dx t.inner
  pub headed : length t.header ≤ length (resize t).col_widths
  pub cells :
      All (λ row. (length (resize t).col_widths ≤ length row) × (t.unique_col < length row)) t.rows

-- `Draw` does not panic on a table whose rows have a cell for each column and for the unique
-- column, whose header has no more entries than there are columns, and whose inner width is not
-- negative; wherever the view and the cursor stand.
pub draw_total : (trim : Bytes → ℤ → Bytes) (t : Table) → IsDrawable t → draw trim t ≢ none
unfolding draw
draw_total trim t ok =
    ground (
      arith,
      draw_header-ne-none (resize t) t.header (columns_of (resize t)) headed,
      body t.top_row,
    )
  where
    all_cells : length (columns_of (resize t)) ≡ length (resize t).col_widths
    all_cells = length-columns (pos 1 +ℤ t.pad_left) t.col_gap (resize t).col_widths

    headed : length t.header ≤ length (columns_of (resize t))
    headed = omega (arith, all_cells, ok.headed)

    body : (top : ℤ) → draw_body trim (resize t) top ≢ none
    body (negsuc n) = ground arith
    body (pos top) =
        draw_rows-ne-none trim (columns_of (resize t)) t.unique_col (shown t top) (resize t) top
          refl ok.wide
          (rw all_cells (All-take _ _ (drop top t.rows) (All-drop _ top t.rows ok.cells)))
