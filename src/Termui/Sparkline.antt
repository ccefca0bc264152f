-- ===== src/Termui/Sparkline.antt =====
-- `Draw` of termui/sparkline.go. The trimming of a text, the bars of termui and the index of the bar
-- for a value and the greatest value, which goes through `float64`, are parameters. A drawing is
-- the list of its texts and bars, without that of the block. `none` is an index out of range.
mod Columns
mod Tests
use gotop.Prelude.{
  ℕ, zero, suc, ◌+◌, ◌*◌, ℤ, pos, ◌+ℤ◌, ◌-ℤ◌, ◌*ℤ◌, div_ℤ, ltb_ℤ, leb_ℤ, ltb, pos_part, Bool, ◌&&◌,
  List, [], ◌∷◌, ◌++◌, Option, none, some, ◌>>=◌, if◌then◌else◌, Bytes, length, drop, get_elem?,
}
use gotop.Termui.Geometry.{Rect, dx, dy}

pub record Line : Type 0 where
  pub samples : List ℤ
  pub title1 : Bytes
  pub title2 : Bytes
  pub title_color : ℕ
  pub line_color : ℕ

pub record Painted : Type 0 where
  pub text : Bytes
  pub color : ℕ
  pub x : ℤ
  pub y : ℤ

abbrev pub newest_first : List ℤ → List ℤ
newest_first [] = []
newest_first (v ∷ vs) = newest_first vs ++ (v ∷ [])

-- The greatest of the values that are in view, from the last one on, and 1 at least.
unfoldable pub max_in_view : ℕ → ℤ → List ℤ → ℤ
max_in_view zero max vs = max
max_in_view (suc columns) max [] = max
max_in_view (suc columns) max (v ∷ vs) = max_in_view columns (if ltb_ℤ max v then v else max) vs

-- `line.Data[dx-1:]`, if there are more than four values for a column.
unfoldable pub cut_samples : ℤ → List ℤ → Option (List ℤ)
cut_samples dx vs =
    if ltb_ℤ (pos 4 *ℤ dx) (pos (length vs))
    then if ltb_ℤ (pos 0) dx then some (drop (pos_part (dx -ℤ pos 1)) vs) else none
    else some vs

module _ (trim : Bytes → ℤ → Bytes) (bars : List ℕ) (index_of : ℤ → ℤ → ℤ) where
  -- The bar of a value, `BARS[1]` for an index that there is not.
  abbrev pub bar_of : ℤ → ℤ → Option ℕ
  bar_of v max =
      let index = index_of v max in
      if leb_ℤ (pos 1) index && ltb_ℤ index (pos (length bars))
      then get_elem? bars (pos_part index)
      else get_elem? bars 1

  abbrev pub bar_at : ℤ → List ℤ → Option ℕ
  bar_at max [] = get_elem? bars 1
  bar_at max (v ∷ vs) = bar_of v max

  abbrev pub rest_of : List ℤ → List ℤ
  rest_of [] = []
  rest_of (v ∷ vs) = vs

  -- The bars from the column `columns` down to the first.
  unfoldable pub draw_bars : Rect → ℕ → ℤ → ℤ → ℕ → List ℤ → Option (List Painted)
  draw_bars r color y max zero vs = some []
  draw_bars r color y max (suc columns) vs = do
    char ← bar_at max vs
    rest ← draw_bars r color y max columns (rest_of vs)
    some (record { text = char ∷ []; color = color; x = r.min_x +ℤ pos columns; y = y } ∷ rest)

  -- A title on the `k`-th line of the part of the `i`-th sparkline.
  abbrev pub title : Rect → ℤ → ℕ → ℕ → Bytes → ℕ → Painted
  title r part i k text color = record {
    text = trim text (dx r);
    color = color;
    x = r.min_x;
    y = r.min_y +ℤ pos k +ℤ part *ℤ pos i;
  }

  unfoldable pub draw_titles : Rect → ℤ → ℕ → Line → List Painted
  draw_titles r part i line =
      (if ltb_ℤ (pos 5) (dy r) then title r part i 1 line.title1 line.title_color ∷ [] else [])
      ++ (if ltb_ℤ (pos 6) (dy r) then title r part i 2 line.title2 line.title_color ∷ [] else [])

  unfoldable pub draw_one : Rect → ℕ → ℕ → Line → Option (Line × List Painted)
  unfolding draw_titles draw_bars max_in_view cut_samples
  draw_one r count i line = do
    let part = div_ℤ (dy r) count
    let columns = pos_part (dx r)
    let vs = newest_first line.samples
    let max = max_in_view columns (pos 1) vs
    drawn ← draw_bars r line.line_color (r.min_y +ℤ part *ℤ pos (i + 1) -ℤ pos 1) max columns vs
    samples ← cut_samples (dx r) line.samples
    some (record line { samples = samples }, draw_titles r part i line ++ drawn)

  -- The sparklines from the `i`-th on, of `count`.
  unfoldable pub draw_from : Rect → ℕ → ℕ → List Line → Option (List Line × List Painted)
  unfolding draw_one
  draw_from r count i [] = some ([], [])
  draw_from r count i (line ∷ lines) = do
    drawn ← draw_one r count i line
    rest ← draw_from r count (i + 1) lines
    some (drawn.0 ∷ rest.0, drawn.1 ++ rest.1)

  unfoldable pub draw : Rect → List Line → Option (List Line × List Painted)
  unfolding draw_from
  draw r lines = draw_from r (length lines) 0 lines
