-- ===== src/Termui/LineGraph.antt =====
-- `Draw` of termui/linegraph.go. The canvas of drawille-go is an interface; `scaled` is the number
-- of dots by which a value lies above the bottom, and `sort` sorts the names. A drawing is the list
-- of its cells, without that of the block. `none` is an index out of range.
pub mod Plot
mod Tests
use gotop.Prelude.{
  ℕ, ◌+◌, ◌*◌, ◌/◌, ◌==◌, ltb, leb, suc, ℤ, pos, negsuc, ◌+ℤ◌, ◌-ℤ◌, ◌*ℤ◌, ltb_ℤ, leb_ℤ, div_ℤ,
  eqb_ℤ, pos_part, Bool, true, false, not, ◌&&◌, ◌||◌, List, [], ◌∷◌, ◌++◌, Option, none, some,
  ◌>>=◌, if◌then◌else◌, map, Bytes, codes, length, drop,
}
use gotop.Prelude.Maps.{Map, lookup, insert}
use gotop.Termui.Geometry.{Rect, dx, dy}

pub record Point : Type 0 where
  pub x : ℤ
  pub y : ℤ

-- What the code uses of drawille-go. `rows` are the lines of the canvas, each rune behind the index
-- of its first byte.
pub record Drawille (C : Type 0) : Type 0 where
  pub empty : C
  pub set : Point → C → C
  pub draw_line : Point → Point → C → C
  pub line : Point → Point → List Point
  pub rows : C → List (List (ℕ × ℕ))

-- `colors[i][j]`, for the indices that exist; the last entry of an index counts.
pub record Colors : Type 0 where
  pub width : ℤ
  pub height : ℤ
  pub entries : List ((ℤ × ℤ) × ℕ)

abbrev pub in_range : ℤ → ℤ → Bool
in_range i n = leb_ℤ (pos 0) i && ltb_ℤ i n

unfoldable pub set_color : Point → ℕ → Colors → Option Colors
set_color p color cs =
    if in_range (div_ℤ p.x 2) cs.width && in_range (div_ℤ p.y 4) cs.height
    then some (record cs { entries = ((div_ℤ p.x 2, div_ℤ p.y 4), color) ∷ cs.entries })
    else none

unfoldable pub entry_at : ℤ → ℤ → List ((ℤ × ℤ) × ℕ) → ℕ
entry_at i j [] = 0
entry_at i j (((k, l), color) ∷ es) = if eqb_ℤ i k && eqb_ℤ j l then color else entry_at i j es

unfoldable pub color_at : ℤ → ℤ → Colors → Option ℕ
unfolding entry_at
color_at i j cs =
    if in_range i cs.width && in_range j cs.height then some (entry_at i j cs.entries) else none

unfoldable pub color_points : ℕ → List Point → Colors → Option Colors
unfolding set_color
color_points color [] cs = some cs
color_points color (p ∷ ps) cs = set_color p color cs >>= color_points color ps

pub record Canvas (C : Type 0) : Type 0 where
  pub canvas : C
  pub colors : Colors

module _ {C V : Type 0} (drawille : Drawille C) (scaled : ℤ → V → ℤ) where
  -- The line from the last point up to the wall.
  unfoldable pub wall : ℕ → List Point → Canvas C → Option (Canvas C)
  unfolding set_color
  wall color [] c = some c
  wall color (p ∷ ps) c =
      let rest = λ (colors : Colors).
        wall color ps (record { canvas = drawille.set p c.canvas; colors = colors }) in
      let skipped = wall color ps c in
      if ltb_ℤ (pos 0) p.x then set_color p color c.colors >>= rest else skipped

  -- One point: the first one, or the end of a line.
  unfoldable pub plot_point : ℕ → Point → Point → Canvas C → Option (Canvas C)
  unfolding color_points
  plot_point color last p c =
      if eqb_ℤ last.y (negsuc 0)
      then (do
        colors ← set_color p color c.colors
        some (record { canvas = drawille.set p c.canvas; colors = colors }))
      else (do
        colors ← color_points color (drawille.line last p) c.colors
        some (record { canvas = drawille.draw_line last p c.canvas; colors = colors }))

  -- The values from the last one on, and the column `x` of the next one; beside the canvas,
  -- whether the loop has been left at the wall.
  unfoldable pub plot : Rect → ℤ → ℕ → ℤ → Point → List V → Canvas C → Option (Canvas C × Bool)
  unfolding wall plot_point
  plot r scale color x last [] c = some (c, false)
  plot r scale color x last (v ∷ vs) c =
      let p : Point = record { x = x; y = (dy r +ℤ pos 1) *ℤ pos 4 -ℤ pos 1 -ℤ scaled (dy r) v } in
      let more = plot r scale color (x -ℤ scale) p vs in
      if ltb_ℤ x (pos 0)
      then (if ltb_ℤ (pos 0 -ℤ scale) x
          then wall color (drawille.line last p) c >>= (λ d. some (d, true))
          else some (c, true))
      else plot_point color last p c >>= more

-- The state of the graph, with the default colour and the default style of a label.
pub record LineGraph (V : Type 0) : Type 0 where
  pub inner : Rect
  pub series : Map (List V)
  pub labels : Map Bytes
  pub horizontal_scale : ℤ
  pub line_colors : Map ℕ
  pub label_styles : Map ℕ
  pub default_line_color : ℕ
  pub series_list : List Bytes

pub record Cell : Type 0 where
  pub char : ℕ
  pub color : ℕ
  pub style : ℕ
  pub x : ℤ
  pub y : ℤ

abbrev pub or_default {ℓ} : {A : Type ℓ} → A → Option A → A
or_default a none = a
or_default a (some b) = b

-- `self.Data[seriesName] = seriesData[dx-1:]`, if there are more than four values for a column.
unfoldable pub cut_data : {V : Type 0} → ℤ → Bytes → List V → Map (List V) → Option (Map (List V))
cut_data dx name vs series =
    if ltb_ℤ (dx *ℤ pos 4) (pos (length vs))
    then if ltb_ℤ (pos 0) dx
      then some (insert name (drop (pos_part (dx -ℤ pos 1)) vs) series)
      else none
    else some series

abbrev pub backwards {ℓ} : {A : Type ℓ} → List A → List A
backwards [] = []
backwards (a ∷ l) = backwards l ++ (a ∷ [])

-- One line of the canvas, and its lines from the `y`-th on. The rune 10240 is the empty one.
unfoldable pub copy_line : Rect → Colors → ℕ → List (ℕ × ℕ) → Option (List Cell)
unfolding color_at
copy_line r cs y [] = some []
copy_line r cs y ((index, char) ∷ line) =
    let rest = copy_line r cs y line in
    let cell : ℕ → Cell = λ color. record {
      char = char;
      color = color;
      style = 0;
      x = r.min_x +ℤ pos (index / 3) -ℤ pos 1;
      y = r.min_y +ℤ pos y -ℤ pos 1;
    } in
    if (index / 3 == 0) || (char == 10240)
    then rest
    else (color_at (pos (index / 3)) (pos y) cs
        >>= (λ color. rest >>= (λ cells. some (cell color ∷ cells))))

unfoldable pub copy_lines : Rect → Colors → ℕ → List (List (ℕ × ℕ)) → Option (List Cell)
unfolding copy_line
copy_lines r cs y [] = some []
copy_lines r cs y (line ∷ lines) = do
  cells ← copy_line r cs y line
  rest ← copy_lines r cs (suc y) lines
  some (cells ++ rest)

module _ {C V : Type 0} (drawille : Drawille C) (scaled : ℤ → V → ℤ) where
  -- One series: the graph with its colour and the data that it keeps, the canvas, and the cells.
  abbrev pub draw_plotted :
      LineGraph V → Bytes → List V → Canvas C × Bool → Option (LineGraph V × Canvas C × List Cell)
  draw_plotted g name vs plotted = do
    series ← if plotted.1 then cut_data (dx g.inner) name vs g.series else some g.series
    cells ← copy_lines g.inner plotted.0.colors 0 (drawille.rows plotted.0.canvas)
    some (record g { series = series }, plotted.0, cells)

  unfoldable pub draw_series :
      LineGraph V → Bytes → Canvas C → Option (LineGraph V × Canvas C × List Cell)
  unfolding plot cut_data copy_lines
  draw_series g name c =
      let vs = or_default [] (lookup name g.series) in
      let color = or_default g.default_line_color (lookup name g.line_colors) in
      let colored = record g { line_colors = insert name color g.line_colors } in
      plot drawille scaled g.inner g.horizontal_scale color
        ((dx g.inner +ℤ pos 1) *ℤ pos 2 -ℤ pos 1) (record { x = negsuc 0; y = negsuc 0 })
        (backwards vs) c
      >>= draw_plotted colored name vs

  unfoldable pub draw_all : LineGraph V → List Bytes → Canvas C → Option (LineGraph V × List Cell)
  unfolding draw_series
  draw_all g [] c = some (g, [])
  draw_all g (name ∷ names) c = do
    drawn ← draw_series g name c
    rest ← draw_all drawn.0 names drawn.1
    some (rest.0, drawn.2 ++ rest.1)

-- The text of a label: a cell for each rune but the spaces.
unfoldable pub label_cells : ℕ → ℕ → ℤ → ℤ → Bytes → List Cell
label_cells color style x y [] = []
label_cells color style x y (char ∷ s) =
    let rest = label_cells color style (x +ℤ pos 1) y s in
    if char == b' '
    then rest
    else record { char = char; color = color; style = style; x = x; y = y } ∷ rest

-- The labels from the `i`-th on, with the offsets and the width of the column of labels.
unfoldable pub draw_labels : {V : Type 0} → LineGraph V → ℤ → ℤ → ℤ → ℤ → List Bytes → List Cell
unfolding label_cells
draw_labels g i xoff yoff max_wid [] = []
draw_labels g i xoff yoff max_wid (name ∷ names) =
    let wraps = ltb_ℤ (dy g.inner) (yoff +ℤ i +ℤ pos 2) in
    let xoff = if wraps then xoff +ℤ max_wid +ℤ pos 2 else xoff in
    let yoff = if wraps then pos 0 -ℤ i else yoff in
    let max_wid = if wraps then pos 0 else max_wid in
    let str = name ++ (codes " " ++ or_default [] (lookup name g.labels)) in
    label_cells (or_default g.default_line_color (lookup name g.line_colors))
      (or_default 0 (lookup name g.label_styles)) (xoff +ℤ g.inner.min_x +ℤ pos 2)
      (yoff +ℤ g.inner.min_y +ℤ i +ℤ pos 1) str
    ++ draw_labels g (i +ℤ pos 1) xoff yoff
        (if ltb_ℤ max_wid (pos (length str)) then pos (length str) else max_wid) names

-- `make`, which panics at a negative size.
abbrev pub make_colors : Rect → Option Colors
make_colors r =
    let width = dx r +ℤ pos 2 in
    let height = dy r +ℤ pos 2 in
    if ltb_ℤ width (pos 0) || (ltb_ℤ (pos 0) width && ltb_ℤ height (pos 0))
    then none
    else some (record { width = width; height = height; entries = [] })

-- The series are sorted again when their number is not that of the data.
abbrev pub sort_series : {V : Type 0} → (List Bytes → List Bytes) → LineGraph V → LineGraph V
sort_series sort g =
    if length g.series_list == length g.series
    then g
    else record g { series_list = sort (map (λ e. e.0) g.series) }

module _ {C V : Type 0} (drawille : Drawille C) (scaled : ℤ → V → ℤ)
    (sort : List Bytes → List Bytes) where
  unfoldable pub draw : LineGraph V → Option (LineGraph V × List Cell)
  unfolding draw_all draw_labels
  draw g = do
    colors ← make_colors g.inner
    let sorted = sort_series sort g
    drawn ←
        draw_all drawille scaled sorted (backwards sorted.series_list)
          (record { canvas = drawille.empty; colors = colors })
    some (
      drawn.0,
      drawn.1 ++ draw_labels drawn.0 (pos 0) (pos 0) (pos 0) (pos 0) drawn.0.series_list,
    )
