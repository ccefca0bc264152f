-- ===== src/Termui/Table/Draw/Bounds.antt =====
-- Where `Draw` puts the cells of a row, and which row a click finds.
use gotop.Prelude.{
  ℕ, ◌<◌, ℤ, pos, ◌+ℤ◌, ◌-ℤ◌, ◌≤ℤ◌, ◌<ℤ◌, int_laws, List, [], ◌∷◌, some, bind-eq-some, Bool-cases,
  inl, inr, All, All-some, drop, get_elem?, Bytes, ◌≡◌, ◌∙◌, length, arith, pos_part, neg_part, ap,
  false,
}
use gotop.Termui.Geometry.{dx, dy}
use gotop.Termui.Table.{Table, handle_click, move_to}
use gotop.Termui.Table.Cursor.{selected_row-move_to}
use gotop.Termui.Table.Draw.{Write, Style, columns, hidden, draw_cells, line_of, columns_of}

abbrev NonNegative : ℤ → Type 0
NonNegative z = pos 0 ≤ℤ z

-- A column of a width that is no less than 0, to the right of the left edge.
abbrev ColumnOk : ℤ × ℤ → Type 0
ColumnOk (w, x) = NonNegative w × (pos 1 ≤ℤ x)

columns_ok :
    (cur gap : ℤ) (ws : List ℤ)
    → pos 1 ≤ℤ cur
    → NonNegative gap
    → All NonNegative ws
    → All ColumnOk (columns cur gap ws)
unfolding columns
columns_ok cur gap [] a b h = tt
columns_ok cur gap (w ∷ ws) a b h =
    ((h.0, a), columns_ok (cur +ℤ w +ℤ gap) gap ws (omega (int_laws, h.0)) b h.1)

-- The text of the call stays within the columns of the inner rectangle.
abbrev pub Within : (Bytes → ℕ) → Table → Write → Type 0
Within measure t w = (t.inner.min_x ≤ℤ w.x) × (w.x +ℤ pos (measure w.text) ≤ℤ t.inner.max_x)

module _ (trim : Bytes → ℤ → Bytes) (measure : Bytes → ℕ)
    (trims : (s : Bytes) (w : ℤ) → pos 0 ≤ℤ w → pos (measure (trim s w)) ≤ℤ w) where
  cell_within :
      (t : Table) (w x : ℤ) (cell : Bytes)
      → ColumnOk (w, x)
      → hidden t w x ≡ false
      → (t.inner.min_x ≤ℤ t.inner.min_x +ℤ x -ℤ pos 1)
        × (t.inner.min_x +ℤ x -ℤ pos 1 +ℤ pos (measure (trim cell w)) ≤ℤ t.inner.max_x)
  unfolding hidden
  cell_within t w x cell ok e =
      let fits : w ≤ℤ dx t.inner -ℤ x +ℤ pos 1 = ground arith in
      (omega int_laws, omega (int_laws, trims cell w ok.0))

  cells_fit :
      (t : Table) (style : Style) (y : ℤ) (cols : List (ℤ × ℤ)) (row : List Bytes) {ws : List Write}
      → All ColumnOk cols
      → draw_cells trim t style y cols row ≡ some ws
      → All (Within measure t) ws
  unfolding draw_cells
  cells_fit t style y [] row h e = All-some _ e tt
  cells_fit t style y ((w, x) ∷ cols) row h e =
      let (more, rest, later) = bind-eq-some (draw_cells trim t style y cols (drop 1 row)) _ e in
      let ih = cells_fit t style y cols (drop 1 row) h.1 rest in
      elim (Bool-cases (hidden t w x)) [
        | inl skip ↦ All-some _ (rw skip at later) ih
        | inr fits ↦
            let (cell, _, final) = bind-eq-some (get_elem? row 0) _ (rw fits at later) in
            All-some _ final ((cell_within t w x cell h.0 fits), ih)
      ]

-- Each cell of a row is drawn within the inner rectangle, if widths, gap and padding are not
-- negative and `trim` keeps a text within the width that it is given (by the measure of the
-- terminal's columns): its column starts no further left than the rectangle, and its text ends
-- no further right.
pub draw_cells-Within :
    (trim : Bytes → ℤ → Bytes) (measure : Bytes → ℕ)
    (trims : (s : Bytes) (w : ℤ) → pos 0 ≤ℤ w → pos (measure (trim s w)) ≤ℤ w) (t : Table)
    (style : Style) (y : ℤ) (row : List Bytes) {ws : List Write}
    → All (λ w. pos 0 ≤ℤ w) t.col_widths
    → pos 0 ≤ℤ t.col_gap
    → pos 0 ≤ℤ t.pad_left
    → draw_cells trim t style y (columns_of t) row ≡ some ws
    → All (Within measure t) ws
draw_cells-Within trim measure trims t style y row widths gap pad e =
    cells_fit trim measure trims t style y (columns_of t) row
      (columns_ok (pos 1 +ℤ t.pad_left) t.col_gap t.col_widths (omega int_laws) gap widths) e

clicked_row :
    (t : Table) (n : ℕ)
    → t.inner.min_y ≡ t.outer.min_y +ℤ pos 1
    → t.top_row +ℤ (line_of t n -ℤ t.outer.min_y) -ℤ pos 2 ≡ pos n
clicked_row t n border = omega (int_laws, ap pos_part border, ap neg_part border)

clicked_inside :
    (t : Table) (n : ℕ) (x : ℤ)
    → t.inner.min_y ≡ t.outer.min_y +ℤ pos 1
    → t.outer.min_x <ℤ x
    → x ≤ℤ t.outer.min_x +ℤ dx t.inner
    → t.top_row ≤ℤ pos n
    → pos n <ℤ t.top_row +ℤ dy t.inner -ℤ pos 1
    → (pos 0 <ℤ x -ℤ t.outer.min_x)
      × (x -ℤ t.outer.min_x ≤ℤ dx t.inner)
      × (pos 0 <ℤ line_of t n -ℤ t.outer.min_y)
      × (line_of t n -ℤ t.outer.min_y ≤ℤ dy t.inner)
clicked_inside t n x border left right above below =
    omega (int_laws, ap pos_part border, ap neg_part border)

-- A click on the line where row `n` is drawn selects row `n`, wherever in the table's columns it
-- hits. The rectangle's border is one cell: the inner rectangle starts one line below the outer.
pub handle_click-line_of :
    (t : Table) (n : ℕ) (x : ℤ)
    → n < length t.rows
    → t.inner.min_y ≡ t.outer.min_y +ℤ pos 1
    → t.outer.min_x <ℤ x
    → x ≤ℤ t.outer.min_x +ℤ dx t.inner
    → t.top_row ≤ℤ pos n
    → pos n <ℤ t.top_row +ℤ dy t.inner -ℤ pos 1
    → (handle_click x (line_of t n) t).selected_row ≡ pos n
unfolding handle_click
handle_click-line_of t n x filled border left right above below =
    let asked = clicked_row t n border in
    let chosen : (move_to (pos n) t).selected_row ≡ pos n =
      selected_row-move_to t (pos n) (omega arith) ∙ grind int_laws in
    let inside = clicked_inside t n x border left right above below in
    ground (arith, chosen, inside, ap (λ (k : ℤ). (move_to k t).selected_row) asked)
