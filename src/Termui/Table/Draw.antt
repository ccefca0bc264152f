-- ===== src/Termui/Table/Draw.antt =====
-- `Draw` and `drawLocation` of termui/table.go. The result is the table after the call and the
-- calls of `buf.SetString` in their order; `none` is a run-time panic. `Block.Draw` of the termui
-- library, and its `TrimString`, are not under this repository: the first is left out, the second
-- is the parameter `trim`.
pub mod Bounds
pub mod Total
pub mod Rows
use gotop.Prelude.{
  ℕ, zero, suc, ◌+◌, ◌-◌, ℤ, pos, negsuc, ◌+ℤ◌, ◌-ℤ◌, ltb_ℤ, eqb_ℤ, Bool, true, false, ◌&&◌, ◌||◌,
  not, List, [], ◌∷◌, ◌++◌, Option, none, some, ◌>>=◌, if◌then◌else◌, length, get_elem?, take, drop,
  replicate, Bytes, codes, beq, itoa, pos_part,
}
use gotop.Termui.Geometry.{dx, dy}
use gotop.Termui.Table.{Table}

pub data Style : Type 0 where
  plain bold title : Style
  cursor : ℕ → Style

-- One call of `buf.SetString`.
pub record Write : Type 0 where
  pub text : Bytes
  pub style : Style
  pub x : ℤ
  pub y : ℤ

-- The width of each column beside its `colXPos`.
unfoldable pub columns : ℤ → ℤ → List ℤ → List (ℤ × ℤ)
columns cur gap [] = []
columns cur gap (w ∷ ws) = (w, cur) ∷ columns (cur +ℤ w +ℤ gap) gap ws

-- A column of width 0, or one that reaches past the widget, is not drawn.
unfoldable pub hidden : Table → ℤ → ℤ → Bool
hidden t w x = eqb_ℤ w (pos 0) || ltb_ℤ (dx t.inner -ℤ x +ℤ pos 1) w

unfoldable pub draw_header : Table → List Bytes → List (ℤ × ℤ) → Option (List Write)
draw_header t [] cols = some []
draw_header t (h ∷ hs) [] = none
draw_header t (h ∷ hs) ((w, x) ∷ cols) = do
  more ← draw_header t hs cols
  if hidden t w x
      then some more
      else some (
          record { text = h; style = bold; x = t.inner.min_x +ℤ x -ℤ pos 1; y = t.inner.min_y }
          ∷ more)

-- `strings.Repeat(" ", n)`, which panics on a negative count.
unfoldable pub spaces : ℤ → Option Bytes
spaces (pos n) = some (replicate n b' ')
spaces (negsuc n) = none

-- The line of the cursor is painted once for every column of a width other than 0.
unfoldable pub paint : Table → ℤ → List ℤ → Option (List Write)
unfolding spaces
paint t y [] = some []
paint t y (w ∷ ws) = do
  more ← paint t y ws
  if eqb_ℤ w (pos 0) then some more else (do
    blank ← spaces (dx t.inner)
    some (record { text = blank; style = cursor t.cursor_color; x = t.inner.min_x; y = y } ∷ more))

-- Is row `n` the row of the cursor? The index of the row's unique column is used only where an
-- item is selected.
unfoldable pub is_selected : Table → ℕ → List Bytes → Option Bool
is_selected t n row =
    if beq t.selected_item []
    then some (eqb_ℤ (pos n) t.selected_row)
    else (do item ← get_elem? row t.unique_col; some (beq t.selected_item item))

-- `self.Inner.Min.Y + y - 1` for y = (rowNum + 2) - self.TopRow
abbrev pub line_of : Table → ℕ → ℤ
line_of t n = t.inner.min_y +ℤ (pos (n + 2) -ℤ t.top_row) -ℤ pos 1

abbrev pub select : Table → ℕ → Bytes → Table
select t n item = record t { selected_item = item; selected_row = pos n }

-- The rows that meet rowNum < self.TopRow + self.Inner.Dy() - 1 and rowNum < len(self.Rows).
abbrev pub shown : Table → ℕ → List (List Bytes)
shown t top = take (pos_part (dy t.inner -ℤ pos 1)) (drop top t.rows)

abbrev at_most : ℤ → ℤ → ℤ
at_most total n = if ltb_ℤ total n then total else n

unfoldable pub draw_location : Table → Write
draw_location t =
    let total = pos (length t.rows) in
    let top_row = at_most total (t.top_row +ℤ pos 1) in
    let bottom_row = at_most total (t.top_row +ℤ dy t.inner -ℤ pos 1) in
    let loc =
      codes " "
      ++ (itoa top_row
          ++ (codes " - " ++ (itoa bottom_row ++ (codes " of " ++ (itoa total ++ codes " "))))) in
    record {
      text = loc;
      style = title;
      x = t.outer.max_x -ℤ pos (length loc) -ℤ pos 2;
      y = t.outer.min_y;
    }

abbrev pub resize : Table → Table
resize t = record t { col_widths = t.col_resizer (dx t.inner) t.col_widths }

abbrev pub columns_of : Table → List (ℤ × ℤ)
columns_of t = columns (pos 1 +ℤ t.pad_left) t.col_gap t.col_widths

module _ (trim : Bytes → ℤ → Bytes) where
  unfoldable pub draw_cells : Table → Style → ℤ → List (ℤ × ℤ) → List Bytes → Option (List Write)
  draw_cells t style y [] row = some []
  draw_cells t style y ((w, x) ∷ cols) row = do
    more ← draw_cells t style y cols (drop 1 row)
    if hidden t w x then some more else (do
      cell ← get_elem? row 0
      some (
          record { text = trim cell w; style = style; x = t.inner.min_x +ℤ x -ℤ pos 1; y = y }
          ∷ more))

  unfoldable pub draw_row : List (ℤ × ℤ) → Table → ℕ → List Bytes → Option (Table × List Write)
  unfolding draw_cells is_selected paint
  draw_row cols t n row = do
    hit ← (if t.show_cursor then is_selected t n row else some false)
    if hit
        then (do
          painted ← paint t (line_of t n) t.col_widths
          item ← get_elem? row t.unique_col
          cells ← draw_cells t (cursor t.cursor_color) (line_of t n) cols row
          some (select t n item, painted ++ cells))
        else (do cells ← draw_cells t plain (line_of t n) cols row; some (t, cells))

  -- The loop over the rows that are shown, from row `n` on.
  unfoldable pub draw_rows :
      List (ℤ × ℤ) → Table → ℕ → List (List Bytes) → Option (Table × List Write)
  unfolding draw_row
  draw_rows cols t n [] = some (t, [])
  draw_rows cols t n (row ∷ rows) = do
    drawn ← draw_row cols t n row
    more ← draw_rows cols drawn.0 (n + 1) rows
    some (more.0, drawn.1 ++ more.1)

  -- A negative `TopRow` is logged, and no row is drawn.
  abbrev pub draw_body : Table → ℤ → Option (Table × List Write)
  draw_body t (pos top) = draw_rows (columns_of t) t top (shown t top)
  draw_body t (negsuc n) = some (t, [])

  unfoldable pub draw : Table → Option (Table × List Write)
  unfolding draw_rows draw_header draw_location columns
  draw t = do
    let location = if t.show_location then draw_location t ∷ [] else []
    let resized = resize t
    header ← draw_header resized resized.header (columns_of resized)
    body ← draw_body resized resized.top_row
    some (body.0, location ++ (header ++ body.1))
