-- ===== src/Widgets/Temp/Tests.antt =====
-- Runs of the temperature widget.
use gotop.Prelude.{ℕ, ℤ, pos, List, [], ◌∷◌, Bytes, codes, All, take, length, ◌≡◌, refl}
use gotop.Prelude.Maps.{insert}
use gotop.Termui.Geometry.{Rect}
use gotop.Widgets.Temp.{TempWidget, new_temp_widget, update, draw}
use gotop.Widgets.Temp.Lines.{Inside, draw-Inside}

abbrev widget : TempWidget
widget = new_temp_widget b'F' (codes "cpu" ∷ codes "gpu" ∷ []) []

-- A sensor that no device updates is converted again at each update.
converted_twice :
    (update (λ m. m) (update (insert (codes "cpu") (pos 40)) widget)).values
    ≡ (codes "cpu", pos 219) ∷ (codes "gpu", pos 89) ∷ []
unfolding new_temp_widget update insert gotop.Utils.celsius_to_fahrenheit gotop.Prelude.◌+ℤ◌
    gotop.Prelude.◌*ℤ◌ gotop.Prelude.div_ℤ gotop.Prelude.beq
converted_twice = refl

abbrev rect : Rect
rect = record { min_x = pos 1; min_y = pos 1; max_x = pos 20; max_y = pos 2 }

draw-Inside_example :
    All
      (Inside rect)
      (draw (λ s w. s) (λ t scale. codes "40C") (λ s. pos (length s)) (λ keys. keys) rect widget)
draw-Inside_example =
    draw-Inside (λ s w. s) (λ t scale. codes "40C") (λ s. pos (length s)) (λ keys. keys) rect widget
