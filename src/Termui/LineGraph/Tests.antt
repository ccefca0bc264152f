-- ===== src/Termui/LineGraph/Tests.antt =====
-- Runs of termui/linegraph.go, with a canvas that keeps its points.
use gotop.Prelude.{
  ℕ, ℤ, pos, negsuc, ◌-ℤ◌, ◌*ℤ◌, Bool, List, [], ◌∷◌, none, some, codes, ◌≡◌, inr, refl, arith,
}
use gotop.Termui.Geometry.{Rect}
use gotop.Termui.LineGraph.{Point, Drawille, Canvas, plot, cut_data}
use gotop.Termui.LineGraph.Plot.{Fits, Straight, plot_total}

abbrev points : Drawille (List Point)
points = record {
  empty = [];
  set = λ p c. p ∷ c;
  draw_line = λ a b c. b ∷ a ∷ c;
  line = λ a b. a ∷ b ∷ [];
  rows = λ c. [];
}

straight : Straight points
straight w h x a b ia ib = (ia, (ib, tt))

abbrev area : Rect
area = record { min_x = pos 1; min_y = pos 1; max_x = pos 5; max_y = pos 4 }

abbrev blank : Canvas (List Point)
blank = record { canvas = []; colors = record { width = pos 6; height = pos 5; entries = [] } }

abbrev dots : ℤ → ℕ → ℤ
dots height value = pos value

plot_total_example :
    (d : Canvas (List Point) × Bool) × (plot points dots area
        (pos 7)
        4
        (pos 9)
        (record { x = negsuc 0; y = negsuc 0 })
        (3 ∷ 11 ∷ 0 ∷ [])
        blank
      ≡ some d)
    × Fits 4 3 d.0.colors
unfolding ◌-ℤ◌
plot_total_example =
    plot_total points straight dots 4 3 area (pos 7) 4 (pos 9)
      (record { x = negsuc 0; y = negsuc 0 }) (3 ∷ 11 ∷ 0 ∷ []) blank refl (omega arith)
      (omega arith) (refl, refl)
      ((3, refl, omega arith), ((11, refl, omega arith), ((0, refl, omega arith), tt)))
      (inr (refl, omega arith))

-- Between the borders of a block of width 2 there is no column: cutting the data panics.
no_column : cut_data (pos 0) (codes "CPU0") (codes "ab") [] ≡ none
unfolding cut_data ◌*ℤ◌
no_column = refl
