-- ===== src/Termui/Table.antt =====
-- `Table` of termui/table.go: its state and the methods that move the cursor. `outer` and `inner`
-- are the rectangles of the embedded block (`self.Min`, `self.Max` and `self.Inner`). Positions are
-- integers without wrap-around: they count rows and screen cells.
pub mod Cursor
pub mod Draw
pub mod Follow
mod Tests
use gotop.Prelude.{
  ℕ, ℤ, pos, negsuc, ◌+ℤ◌, ◌-ℤ◌, div_ℤ, ltb_ℤ, leb_ℤ, Bool, ◌&&◌, List, [], if◌then◌else◌, length,
  Bytes,
}
use gotop.Termui.Geometry.{Rect, dx, dy}

pub record Table : Type 0 where
  pub outer : Rect
  pub inner : Rect
  pub header : List Bytes
  pub rows : List (List Bytes)
  pub col_widths : List ℤ
  pub col_gap : ℤ
  pub pad_left : ℤ
  pub show_cursor : Bool
  pub cursor_color : ℕ
  pub show_location : Bool
  pub unique_col : ℕ
  pub selected_item : Bytes
  pub selected_row : ℤ
  pub top_row : ℤ
  -- `ColResizer`: from the inner width and the old widths to the new ones
  pub col_resizer : ℤ → List ℤ → List ℤ

-- len(self.Rows) - 1
abbrev pub last_row : Table → ℤ
last_row t = pos (length t.rows) -ℤ pos 1

-- self.Inner.Dy() - 2
abbrev pub page : Table → ℤ
page t = dy t.inner -ℤ pos 2

-- The four tests of `calcPos`, in their order.
abbrev clamp_first : Table → Table
clamp_first t = record t {
  selected_row = if ltb_ℤ t.selected_row (pos 0) then pos 0 else t.selected_row;
}

abbrev scroll_back : Table → Table
scroll_back t = record t {
  top_row = if ltb_ℤ t.selected_row t.top_row then t.selected_row else t.top_row;
}

abbrev clamp_last : Table → Table
clamp_last t = record t {
  selected_row = if ltb_ℤ (last_row t) t.selected_row then last_row t else t.selected_row;
}

abbrev scroll_on : Table → Table
scroll_on t = record t {
  top_row =
      if ltb_ℤ (t.top_row +ℤ page t) t.selected_row then t.selected_row -ℤ page t else t.top_row;
}

unfoldable pub calc_pos : Table → Table
calc_pos t = scroll_on (clamp_last (scroll_back (clamp_first (record t { selected_item = [] }))))

-- `self.SelectedRow = row; self.calcPos()`
abbrev pub move_to : ℤ → Table → Table
move_to row t = calc_pos (record t { selected_row = row })

unfoldable pub scroll_up : Table → Table
scroll_up t = move_to (t.selected_row -ℤ pos 1) t

unfoldable pub scroll_down : Table → Table
scroll_down t = move_to (t.selected_row +ℤ pos 1) t

unfoldable pub scroll_top : Table → Table
scroll_top t = move_to (pos 0) t

unfoldable pub scroll_bottom : Table → Table
scroll_bottom t = move_to (last_row t) t

unfoldable pub scroll_half_page_up : Table → Table
scroll_half_page_up t = move_to (t.selected_row -ℤ div_ℤ (page t) 2) t

unfoldable pub scroll_half_page_down : Table → Table
scroll_half_page_down t = move_to (t.selected_row +ℤ div_ℤ (page t) 2) t

unfoldable pub scroll_page_up : Table → Table
scroll_page_up t = move_to (t.selected_row -ℤ page t) t

unfoldable pub scroll_page_down : Table → Table
scroll_page_down t = move_to (t.selected_row +ℤ page t) t

-- A click outside the inner lines changes nothing.
unfoldable pub handle_click : ℤ → ℤ → Table → Table
handle_click x y t =
    let x' = x -ℤ t.outer.min_x in
    let y' = y -ℤ t.outer.min_y in
    if (ltb_ℤ (pos 0) x' && leb_ℤ x' (dx t.inner)) && (ltb_ℤ (pos 0) y' && leb_ℤ y' (dy t.inner))
    then move_to ((t.top_row +ℤ y') -ℤ pos 2) t
    else t
