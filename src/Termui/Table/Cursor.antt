-- ===== src/Termui/Table/Cursor.antt =====
-- Where the cursor and the view stand after `calcPos`, and so after each method that scrolls.
use gotop.Prelude.{
  ℤ, pos, ◌+ℤ◌, ◌-ℤ◌, ◌≤ℤ◌, ◌<ℤ◌, ltb_ℤ, int_laws, div_ℤ, ◌≡◌, ◌∙◌, List, [], ◌∷◌, All,
  if◌then◌else◌, length, arith, ◌<◌,
}
use gotop.Termui.Geometry.{dy}
use gotop.Termui.Table.{
  Table, last_row, page, calc_pos, move_to, scroll_up, scroll_down, scroll_top, scroll_bottom,
  scroll_half_page_up, scroll_half_page_down, scroll_page_up, scroll_page_down,
}

-- The cursor is on a row, and that row is one of those which `Draw` shows.
pub record InView (t : Table) : Type 0 where
  pub first : pos 0 ≤ℤ t.selected_row
  pub last : t.selected_row ≤ℤ last_row t
  pub top : pos 0 ≤ℤ t.top_row
  pub above : t.top_row ≤ℤ t.selected_row
  pub below : t.selected_row ≤ℤ t.top_row +ℤ page t

-- What the methods ask of the table: it has a row, two lines fit, and the view starts on a row.
pub record IsScrollable (t : Table) : Type 0 where
  pub filled : 0 < length t.rows
  pub room : pos 2 ≤ℤ dy t.inner
  pub top : pos 0 ≤ℤ t.top_row
  pub fits : t.top_row ≤ℤ last_row t

pub calc_pos-InView : (t : Table) → IsScrollable t → InView (calc_pos t)
unfolding calc_pos
calc_pos-InView t s = record {
  first = ground arith;
  last = ground arith;
  top = grind int_laws;
  above = grind int_laws;
  below = grind int_laws;
}

pub InView-IsScrollable :
    (t : Table) → 0 < length t.rows → pos 2 ≤ℤ dy t.inner → InView t → IsScrollable t
InView-IsScrollable t filled room v = record {
  filled = filled;
  room = room;
  top = v.top;
  fits = omega arith;
}

-- The row that a request for row `k` selects.
abbrev pub nearest_row : Table → ℤ → ℤ
nearest_row t k = if ltb_ℤ k (pos 0) then pos 0 else if ltb_ℤ (last_row t) k then last_row t else k

pub selected_row-move_to :
    (t : Table) (k : ℤ) → 0 < length t.rows → (move_to k t).selected_row ≡ nearest_row t k
unfolding calc_pos
selected_row-move_to t k h = grind int_laws

-- A row that the view shows already does not move the view.
pub top_row-move_to :
    (t : Table) (k : ℤ)
    → pos 0 ≤ℤ k
    → k ≤ℤ last_row t
    → t.top_row ≤ℤ k
    → k ≤ℤ t.top_row +ℤ page t
    → (move_to k t).top_row ≡ t.top_row
unfolding calc_pos
top_row-move_to t k a b c d = grind int_laws

abbrev pub motions : List (Table → Table)
motions =
    scroll_up ∷ scroll_down ∷ scroll_top ∷ scroll_bottom ∷ scroll_half_page_up
    ∷ scroll_half_page_down ∷ scroll_page_up ∷ scroll_page_down ∷ []

-- For a table with rows, room for two lines and a view that starts on a row, each of the eight
-- scroll methods leaves the cursor on a row, and on one of the rows that `Draw` shows.
pub motions-InView : (t : Table) → IsScrollable t → All (λ m. InView (m t)) motions
unfolding scroll_up scroll_down scroll_top scroll_bottom scroll_half_page_up scroll_half_page_down
    scroll_page_up scroll_page_down
motions-InView t s = (at _, (at _, (at _, (at _, (at _, (at _, (at _, (at _, tt))))))))
  where
    at : (k : ℤ) → InView (move_to k t)
    at k =
        calc_pos-InView (record t { selected_row = k })
          (record { filled = s.filled; room = s.room; top = s.top; fits = s.fits })

-- The row that each of the eight methods selects.
abbrev pub SelectsNearest : Table → Type 0
SelectsNearest t =
    ((scroll_up t).selected_row ≡ nearest_row t (t.selected_row -ℤ pos 1))
    × ((scroll_down t).selected_row ≡ nearest_row t (t.selected_row +ℤ pos 1))
    × ((scroll_top t).selected_row ≡ pos 0)
    × ((scroll_bottom t).selected_row ≡ last_row t)
    × ((scroll_half_page_up t).selected_row ≡ nearest_row t (t.selected_row -ℤ div_ℤ (page t) 2))
    × ((scroll_half_page_down t).selected_row ≡ nearest_row t (t.selected_row +ℤ div_ℤ (page t) 2))
    × ((scroll_page_up t).selected_row ≡ nearest_row t (t.selected_row -ℤ page t))
    × ((scroll_page_down t).selected_row ≡ nearest_row t (t.selected_row +ℤ page t))

-- The row that each scroll method selects, in a table with rows: the row asked for, moved to the
-- nearest end of the list if there is no such row.
pub selected_row-motions : (t : Table) → 0 < length t.rows → SelectsNearest t
unfolding scroll_up scroll_down scroll_top scroll_bottom scroll_half_page_up scroll_half_page_down
    scroll_page_up scroll_page_down
selected_row-motions t h = (
  at _,
  at _,
  at (pos 0) ∙ grind int_laws,
  at (last_row t) ∙ grind int_laws,
  at _,
  at _,
  at _,
  at _,
)
  where
    at : (k : ℤ) → (move_to k t).selected_row ≡ nearest_row t k
    at k = selected_row-move_to t k h

-- When rows have gone, so that the view starts below the last row, a method that asks for a row
-- at or below the start of the view selects the last row and leaves the view where it is, below
-- that row. Here the table has rows, and its inner rectangle two lines or more.
pub move_to-stale_view :
    (t : Table) (k : ℤ)
    → 0 < length t.rows
    → pos 2 ≤ℤ dy t.inner
    → last_row t <ℤ t.top_row
    → t.top_row ≤ℤ k
    → ((move_to k t).selected_row ≡ last_row t) × ((move_to k t).top_row ≡ t.top_row)
unfolding calc_pos
move_to-stale_view t k filled room gone ask = (grind int_laws, grind int_laws)
