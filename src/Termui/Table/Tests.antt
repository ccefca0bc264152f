-- ===== src/Termui/Table/Tests.antt =====
-- Runs of the table on small inputs.
use gotop.Prelude.{
  ℤ, pos, negsuc, ◌+ℤ◌, ◌-ℤ◌, ◌≤ℤ◌, length, length-take, List, [], ◌∷◌, none, some, true, Bytes,
  codes, All, ◌≡◌, ◌≢◌, refl, arith, take, itoa, beq,
}
use gotop.Termui.Table.{Table, last_row, move_to, calc_pos, scroll_page_down, handle_click}
use gotop.Termui.Table.Cursor.{
  InView, IsScrollable, motions, motions-InView, SelectsNearest, selected_row-motions,
  move_to-stale_view,
}
use gotop.Termui.Table.Draw.{
  Write, plain, draw, draw_cells, columns_of, line_of, hidden, is_selected, draw_row, paint, spaces,
  columns,
}
use gotop.Termui.Table.Draw.Bounds.{Within, draw_cells-Within, handle_click-line_of}
use gotop.Termui.Table.Draw.Total.{draw_total}
use gotop.Termui.Table.Follow.{OnItem, draw-OnItem}

abbrev lines : List (List Bytes)
lines =
    (codes "1" ∷ codes "init" ∷ [])
    ∷ (codes "7" ∷ codes "sh" ∷ [])
    ∷ (codes "9" ∷ codes "vi" ∷ [])
    ∷ (codes "12" ∷ codes "top" ∷ [])
    ∷ (codes "13" ∷ codes "cat" ∷ [])
    ∷ []

abbrev table : Table
table = record {
  outer = record { min_x = pos 0; min_y = pos 0; max_x = pos 20; max_y = pos 6 };
  inner = record { min_x = pos 1; min_y = pos 1; max_x = pos 19; max_y = pos 5 };
  header = codes "PID" ∷ codes "Command" ∷ [];
  rows = lines;
  col_widths = [];
  col_gap = pos 1;
  pad_left = pos 0;
  show_cursor = true;
  cursor_color = 4;
  show_location = true;
  unique_col = 0;
  selected_item = codes "12";
  selected_row = pos 1;
  top_row = pos 1;
  col_resizer = λ _ _. pos 3 ∷ pos 8 ∷ [];
}

abbrev fitted : Table
fitted = record table { col_widths = pos 3 ∷ pos 8 ∷ [] }

-- `TrimString` for texts that fit.
abbrev trim : Bytes → ℤ → Bytes
trim s (pos n) = take n s
trim s (negsuc n) = []

trims : (s : Bytes) (w : ℤ) → pos 0 ≤ℤ w → pos (length (trim s w)) ≤ℤ w
trims s (pos n) h = omega (arith, length-take n s)
trims s (negsuc n) h = omega arith

scrollable : IsScrollable table
unfolding ◌-ℤ◌
scrollable = record {
  filled = omega arith;
  room = omega arith;
  top = omega arith;
  fits = omega arith;
}

motions-InView_example : All (λ m. InView (m table)) motions
motions-InView_example = motions-InView table scrollable

page_down_at_end : (scroll_page_down (scroll_page_down table)).selected_row ≡ pos 4
unfolding scroll_page_down calc_pos ◌-ℤ◌ ◌+ℤ◌
page_down_at_end = refl

selected_row-motions_example : SelectsNearest table
selected_row-motions_example = selected_row-motions table (omega arith)

-- Three of the rows have gone while the view started at the fourth.
abbrev shrunk : Table
shrunk = record table { rows = take 2 lines; top_row = pos 3 }

move_to-stale_view_example :
    ((move_to (pos 4) shrunk).selected_row ≡ last_row shrunk)
    × ((move_to (pos 4) shrunk).top_row ≡ pos 3)
unfolding ◌-ℤ◌
move_to-stale_view_example =
    move_to-stale_view shrunk (pos 4) (omega arith) (omega arith) (omega arith) (omega arith)

-- The selected item, "12", has moved to row 3.
abbrev after : Table
after = record fitted { selected_row = pos 3 }

drawn : (ws : List Write) × (draw trim table ≡ some (after, ws))
unfolding draw draw_row is_selected hidden draw_cells paint spaces beq itoa ◌-ℤ◌ ◌+ℤ◌
drawn = (_, refl)

draw-OnItem_example :
    OnItem 1 4 after
    × (after.rows ≡ table.rows)
    × (table.selected_item ≢ [] → after.selected_item ≡ table.selected_item)
unfolding is_selected beq ◌-ℤ◌
draw-OnItem_example =
    draw-OnItem trim table 1 3 (codes "12" ∷ codes "top" ∷ []) refl refl refl (omega arith)
      (omega arith) refl drawn.1

draw_total_example : draw trim table ≢ none
unfolding ◌-ℤ◌
draw_total_example =
    draw_total trim table (record { wide = omega arith; headed = omega arith; cells = omega arith })

cells_drawn :
    (ws : List Write) × (draw_cells trim fitted plain
        (pos 2)
        (columns_of fitted)
        (codes "7" ∷ codes "sh" ∷ [])
      ≡ some ws)
unfolding draw_cells hidden columns ◌-ℤ◌ ◌+ℤ◌
cells_drawn = (_, refl)

draw_cells-Within_example : All (Within length fitted) cells_drawn.0
draw_cells-Within_example =
    draw_cells-Within trim length trims fitted plain (pos 2) (codes "7" ∷ codes "sh" ∷ [])
      (omega arith) (omega arith) (omega arith) cells_drawn.1

handle_click-line_of_example : (handle_click (pos 5) (line_of table 2) table).selected_row ≡ pos 2
unfolding ◌-ℤ◌ ◌+ℤ◌
handle_click-line_of_example =
    handle_click-line_of table 2 (pos 5) (omega arith) refl (omega arith) (omega arith)
      (omega arith) (omega arith)
