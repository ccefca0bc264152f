-- ===== src/Termui/Sparkline/Columns.antt =====
-- The columns in which `Draw` of termui/sparkline.go writes.
use gotop.Prelude.{
  ℕ, zero, suc, ◌+◌, ◌≤◌, ◌<◌, ℤ, pos, negsuc, ◌+ℤ◌, ◌-ℤ◌, ◌*ℤ◌, div_ℤ, ltb_ℤ, leb_ℤ, pos_part,
  ◌≤ℤ◌, int_laws, Bool, true, false, ◌&&◌, List, [], ◌∷◌, ◌++◌, Option, none, some, if◌then◌else◌,
  All, All-append, Bytes, length, get_elem?-some, ◌≡◌, refl, ap, arith,
}
use gotop.Termui.Geometry.{Rect, dx, dy}
use gotop.Termui.Sparkline.{
  Line, Painted, max_in_view, cut_samples, bar_of, bar_at, rest_of, newest_first, draw_bars, title,
  draw_titles, draw_one, draw_from, draw,
}

-- A text that begins in one of the `w` columns of a rectangle.
abbrev pub Within : Rect → ℕ → Painted → Type 0
Within r w p = (r.min_x ≤ℤ p.x) × (p.x ≤ℤ r.min_x +ℤ pos w)

column : (z : ℤ) (n w : ℕ) → n ≤ w → (z ≤ℤ z +ℤ pos n) × (z +ℤ pos n ≤ℤ z +ℤ pos w)
column z n w le = (grind int_laws, grind (int_laws, le))

abbrev Returns : {A : Type 0} → Option A → Type 0
Returns {A} o = (x : A) × (o ≡ some x)

if_Returns :
    {A : Type 0} (b : Bool) (x y : Option A) → Returns x → Returns y → Returns (if b then x else y)
if_Returns true x y rx ry = rx
if_Returns false x y rx ry = ry

if_all :
    (r : Rect) (w : ℕ) (b : Bool) (ps : List Painted)
    → All (Within r w) ps
    → All (Within r w) (if b then ps else [])
if_all r w true ps all = all
if_all r w false ps all = tt

kept_Returns :
    {A : Type 0} (b : Bool) (x y : Option A) → b ≡ true → Returns x → Returns (if b then x else y)
kept_Returns true x y h rx = rx
kept_Returns false x y h rx = absurd (ground (arith, h))

cut_samples-Returns : (w : ℕ) (vs : List ℤ) → Returns (cut_samples (pos (suc w)) vs)
unfolding cut_samples
cut_samples-Returns w vs =
    if_Returns _ _ _ (kept_Returns (ltb_ℤ (pos 0) (pos (suc w))) _ none (ground arith) (_, refl))
      (vs, refl)

guarded_Returns :
    {A : Type 0} (b : Bool) (x y : Option A)
    → (b ≡ true → Returns x)
    → Returns y
    → Returns (if b then x else y)
guarded_Returns true x y rx ry = rx refl
guarded_Returns false x y rx ry = ry

below_count : (i : ℤ) (n : ℕ) → (leb_ℤ (pos 1) i && ltb_ℤ i (pos n)) ≡ true → pos_part i < n
below_count (pos m) n h = ground arith
below_count (negsuc m) n h = ground arith

module _ (trim : Bytes → ℤ → Bytes) (bars : List ℕ) (index_of : ℤ → ℤ → ℤ)
    (two : 1 < length bars) where
  bar_of-Returns : (v max : ℤ) → Returns (bar_of trim bars index_of v max)
  bar_of-Returns v max =
      guarded_Returns _ _ _
        (λ h. get_elem?-some bars (pos_part (index_of v max)) (below_count _ _ h))
        (get_elem?-some bars 1 two)

  bar_at-Returns : (max : ℤ) (vs : List ℤ) → Returns (bar_at trim bars index_of max vs)
  bar_at-Returns max [] = get_elem?-some bars 1 two
  bar_at-Returns max (v ∷ vs) = bar_of-Returns v max

  draw_bars-Within :
      (r : Rect) (color : ℕ) (y max : ℤ) (n w : ℕ) (vs : List ℤ)
      → n ≤ suc w
      → (out : List Painted) × (draw_bars trim bars index_of r color y max n vs ≡ some out)
        × (length out ≡ n)
        × All (Within r w) out
  unfolding draw_bars
  draw_bars-Within r color y max zero w vs le = ([], refl, refl, tt)
  draw_bars-Within r color y max (suc n) w vs le =
      let (c, e) = bar_at-Returns max vs in
      let (out, e', count, within) =
        draw_bars-Within r color y max n w (rest_of trim bars index_of vs) (omega arith) in
      (
        record { text = c ∷ []; color = color; x = r.min_x +ℤ pos n; y = y } ∷ out,
        rw e (rw e' refl),
        ap suc count,
        (column r.min_x n w (omega arith), within),
      )

  left_column : (z : ℤ) (w : ℕ) → (z ≤ℤ z) × (z ≤ℤ z +ℤ pos w)
  left_column z w = (grind int_laws, grind int_laws)

  draw_titles-Within :
      (r : Rect) (part : ℤ) (i w : ℕ) (line : Line)
      → All (Within r w) (draw_titles trim bars index_of r part i line)
  unfolding draw_titles
  draw_titles-Within r part i w line =
      let place = title trim bars index_of r part i in
      All-append (Within r w) _ _
        (if_all r w (ltb_ℤ (pos 5) (dy r)) (place 1 line.title1 line.title_color ∷ [])
          (left_column r.min_x w, tt))
        (if_all r w (ltb_ℤ (pos 6) (dy r)) (place 2 line.title2 line.title_color ∷ [])
          (left_column r.min_x w, tt))

  draw_one-Within :
      (r : Rect) (count i w : ℕ) (line : Line)
      → dx r ≡ pos (suc w)
      → (out : Line × List Painted) × (draw_one trim bars index_of r count i line ≡ some out)
        × All (Within r w) out.1
  unfolding draw_one
  draw_one-Within r count i w line wide =
      let vs = newest_first line.samples in
      let max = max_in_view (suc w) (pos 1) vs in
      let y = r.min_y +ℤ div_ℤ (dy r) count *ℤ pos (i + 1) -ℤ pos 1 in
      let (drawn, e, count', within) =
        draw_bars-Within r line.line_color y max (suc w) w vs (omega arith) in
      let (samples, e') = cut_samples-Returns w line.samples in
      (
        (
          record line { samples = samples },
          draw_titles trim bars index_of r (div_ℤ (dy r) count) i line ++ drawn,
        ),
        rw wide (rw e (rw e' refl)),
        All-append (Within r w) _ _ (draw_titles-Within r _ i w line) within,
      )

  draw_from-Within :
      (r : Rect) (count i w : ℕ) (lines : List Line)
      → dx r ≡ pos (suc w)
      → (out : List Line × List Painted) × (draw_from trim bars index_of r count i lines ≡ some out)
        × (length out.0 ≡ length lines)
        × All (Within r w) out.1
  unfolding draw_from
  draw_from-Within r count i w [] wide = (([], []), refl, refl, tt)
  draw_from-Within r count i w (line ∷ lines) wide =
      let (drawn, e, within) = draw_one-Within r count i w line wide in
      let (rest, e', kept, within') = draw_from-Within r count (i + 1) w lines wide in
      (
        (drawn.0 ∷ rest.0, drawn.1 ++ rest.1),
        rw e (rw e' refl),
        ap suc kept,
        All-append (Within r w) _ _ within within',
      )

  -- If termui has more than one bar and the inner rectangle has a column, `Draw` of a group of
  -- sparklines returns. The group has as many sparklines as before, and each text and bar begins in
  -- a column of the rectangle.
  pub draw-Within :
      (r : Rect) (w : ℕ) (lines : List Line)
      → dx r ≡ pos (suc w)
      → (out : List Line × List Painted) × (draw trim bars index_of r lines ≡ some out)
        × (length out.0 ≡ length lines)
        × All (Within r w) out.1
  unfolding draw
  draw-Within r w lines wide = draw_from-Within r (length lines) 0 w lines wide
