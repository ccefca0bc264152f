-- ===== src/Widgets/Temp/Lines.antt =====
-- Where `Draw` of widgets/temp.go writes.
use gotop.Prelude.{
  ℕ, ◌+◌, ℤ, pos, ◌+ℤ◌, ◌≤ℤ◌, ◌<ℤ◌, ltb_ℤ, int_laws, Bool, true, false, List, [], ◌∷◌, ◌++◌,
  if◌then◌else◌, Bytes, All, ◌≡◌, refl, map,
}
use gotop.Termui.Geometry.{Rect, dy}
use gotop.Widgets.Temp.{TempWidget, TempText, line_of, draw_keys, draw}

-- A text on a line of the inner rectangle.
abbrev pub Inside : Rect → TempText → Type 0
Inside r t = (r.min_y ≤ℤ t.y) × (t.y <ℤ r.max_y)

module _ (trim : Bytes → ℤ → Bytes) (print : ℤ → ℕ → Bytes) (string_bytes : Bytes → ℤ) where
  in_lines :
      (r : Rect) (y : ℕ)
      → ltb_ℤ (dy r) (pos (y + 1)) ≡ false
      → (r.min_y ≤ℤ r.min_y +ℤ pos y) × (r.min_y +ℤ pos y <ℤ r.max_y)
  in_lines r y e = (grind int_laws, grind int_laws)

  draw_keys-Inside :
      (r : Rect) (w : TempWidget) (y : ℕ) (keys : List Bytes)
      → All (Inside r) (draw_keys trim print string_bytes r w y keys)
  unfolding draw_keys
  draw_keys-Inside r w y [] = tt
  draw_keys-Inside r w y (key ∷ keys) =
      by_room (ltb_ℤ (dy r) (pos (y + 1))) refl (draw_keys-Inside r w (y + 1) keys)
    where
      by_room :
          (b : Bool)
          → ltb_ℤ (dy r) (pos (y + 1)) ≡ b
          → All (Inside r) (draw_keys trim print string_bytes r w (y + 1) keys)
          → All (Inside r) (
              if b
              then []
              else line_of trim print string_bytes r w y key
                ++ draw_keys trim print string_bytes r w (y + 1) keys)
      by_room true e rest = tt
      by_room false e rest = (in_lines r y e, (in_lines r y e, rest))

  -- Every text that `Draw` writes for a sensor stands on a line of the inner rectangle, however
  -- many sensors there are.
  pub draw-Inside :
      (sort : List Bytes → List Bytes) (r : Rect) (w : TempWidget)
      → All (Inside r) (draw trim print string_bytes sort r w)
  unfolding draw
  draw-Inside sort r w = draw_keys-Inside r w 0 (sort (map (λ e. e.0) w.values))
