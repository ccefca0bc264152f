-- ===== src/Termui/Sparkline/Tests.antt =====
-- Runs of termui/sparkline.go.
use gotop.Prelude.{
  ℤ, pos, ◌+ℤ◌, ◌-ℤ◌, ◌*ℤ◌, div_ℤ, [], ◌∷◌, none, some, Option, List, Bytes, codes, map, length,
  All, arith, ◌≡◌, refl,
}
use gotop.Termui.Geometry.{Rect}
use gotop.Termui.Sparkline.Columns.{Within, draw-Within}
use gotop.Termui.Sparkline.{Line, Painted, draw, cut_samples}

abbrev line : Line
line = record {
  samples = pos 9 ∷ pos 1 ∷ pos 2 ∷ [];
  title1 = codes "RX";
  title2 = codes "RX/s";
  title_color = 7;
  line_color = 4;
}

abbrev area : Rect
area = record { min_x = pos 1; min_y = pos 1; max_x = pos 3; max_y = pos 7 }

abbrev index_of : ℤ → ℤ → ℤ
index_of value greatest = value

abbrev texts : Option (List Line × List Painted) → List Bytes
texts none = []
texts (some r) = map (λ p. p.text) r.1

-- Six lines have room for the first title only; the newest value is in the last column.
two_columns :
    texts (draw (λ s n. s) (32 ∷ 65 ∷ 66 ∷ []) index_of area (line ∷ []))
    ≡ codes "RX" ∷ codes "B" ∷ codes "A" ∷ []
unfolding draw ◌+ℤ◌ ◌-ℤ◌ ◌*ℤ◌ div_ℤ
two_columns = refl

-- Without a column, cutting the data panics.
no_column : cut_samples (pos 0) (pos 3 ∷ []) ≡ none
unfolding cut_samples ◌*ℤ◌
no_column = refl

draw-Within_example :
    (out : List Line × List Painted) × (draw
        (λ s n. s)
        (32 ∷ 65 ∷ 66 ∷ [])
        index_of
        area
        (line ∷ [])
      ≡ some out)
    × (length out.0 ≡ 1)
    × All (Within area 1) out.1
unfolding ◌-ℤ◌
draw-Within_example =
    draw-Within (λ s n. s) (32 ∷ 65 ∷ 66 ∷ []) index_of (omega arith) area 1 (line ∷ []) refl
