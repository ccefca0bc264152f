-- ===== src/Termui/Geometry.antt =====
-- Rectangles of the screen, as `image.Rectangle` of the Go library gives them to every widget.
use gotop.Prelude.{ℤ, ◌-ℤ◌}

pub record Rect : Type 0 where
  pub min_x : ℤ
  pub min_y : ℤ
  pub max_x : ℤ
  pub max_y : ℤ

-- Dx and Dy
abbrev pub dx : Rect → ℤ
dx r = r.max_x -ℤ r.min_x

abbrev pub dy : Rect → ℤ
dy r = r.max_y -ℤ r.min_y
