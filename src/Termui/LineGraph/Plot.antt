-- ===== src/Termui/LineGraph/Plot.antt =====
-- Where the graph of termui/linegraph.go plots its points.
use gotop.Prelude.{
  ℕ, ◌+◌, ◌*◌, ◌-◌, ◌≤◌, ℤ, pos, negsuc, ◌+ℤ◌, ◌-ℤ◌, ◌*ℤ◌, div_ℤ, ltb_ℤ, eqb_ℤ, ◌≤ℤ◌, int_laws,
  Bool, true, false, ◌&&◌, List, [], ◌∷◌, none, some, ◌>>=◌, if◌then◌else◌, All, ◌≡◌, ◌⊎◌, inl, inr,
  refl, sym, ap, ◌∙◌, subst, arith,
}
use gotop.Termui.Geometry.{Rect, dy}
use gotop.Termui.LineGraph.{
  Point, Drawille, Colors, Canvas, in_range, set_color, color_points, wall, plot_point, plot,
}

-- The points that lie on the canvas of a graph of `w` columns and `h` lines, from the column `x` on.
abbrev pub Inside : ℕ → ℕ → ℤ → Point → Type 0
Inside w h x p = (x ≤ℤ p.x) × (p.x ≤ℤ pos (w * 2 + 1)) × (pos 0 ≤ℤ p.y) × (p.y ≤ℤ pos (h * 4 + 3))

-- The colours of such a graph.
abbrev pub Fits : ℕ → ℕ → Colors → Type 0
Fits w h cs = (cs.width ≡ pos (w + 2)) × (cs.height ≡ pos (h + 2))

column_in_range :
    (w : ℕ) (x : ℤ) → pos 0 ≤ℤ x → x ≤ℤ pos (w * 2 + 1) → in_range (div_ℤ x 2) (pos (w + 2)) ≡ true
unfolding div_ℤ
column_in_range w (pos n) lo hi = ground arith
column_in_range w (negsuc n) lo hi = absurd (omega arith)

line_in_range :
    (h : ℕ) (y : ℤ) → pos 0 ≤ℤ y → y ≤ℤ pos (h * 4 + 3) → in_range (div_ℤ y 4) (pos (h + 2)) ≡ true
unfolding div_ℤ
line_in_range h (pos n) lo hi = ground arith
line_in_range h (negsuc n) lo hi = absurd (omega arith)

both :
    {A : Type 0} (a b : Bool) (x : A)
    → a ≡ true
    → b ≡ true
    → (if a && b then some x else none) ≡ some x
both true true x ha hb = refl
both true false x ha hb = absurd (ground (arith, hb))
both false b x ha hb = absurd (ground (arith, ha))

set_color_total :
    (w h : ℕ) (color : ℕ) (p : Point) (cs : Colors)
    → Fits w h cs
    → Inside w h (pos 0) p
    → (d : Colors) × (set_color p color cs ≡ some d) × Fits w h d
unfolding set_color
set_color_total w h color p cs fits (lo, hi, low, high) = (
  record cs { entries = ((div_ℤ p.x 2, div_ℤ p.y 4), color) ∷ cs.entries },
  both _ _ _ (ap (in_range (div_ℤ p.x 2)) fits.0 ∙ column_in_range w p.x lo hi)
      (ap (in_range (div_ℤ p.y 4)) fits.1 ∙ line_in_range h p.y low high),
  fits,
)

color_points_total :
    (w h : ℕ) (color : ℕ) (ps : List Point) (cs : Colors)
    → Fits w h cs
    → All (Inside w h (pos 0)) ps
    → (d : Colors) × (color_points color ps cs ≡ some d) × Fits w h d
unfolding color_points
color_points_total w h color [] cs fits ins = (cs, refl, fits)
color_points_total w h color (p ∷ ps) cs fits ins =
    let (mid, e, fits') = set_color_total w h color p cs fits ins.0 in
    let (end, e', fits'') = color_points_total w h color ps mid fits' ins.1 in
    (end, ap (λ o. o >>= color_points color ps) e ∙ e', fits'')

-- A line does not leave a box that holds both of its ends.
abbrev pub Straight : {C : Type 0} → Drawille C → Type 0
Straight drawille =
    (w h : ℕ) (x : ℤ) (a b : Point)
    → Inside w h x a
    → Inside w h x b
    → All (Inside w h x) (drawille.line a b)

times_four : (n : ℕ) → pos n *ℤ pos 4 ≡ pos (n * 4)
unfolding ◌*ℤ◌
times_four n = grind int_laws

plus_one : (n : ℕ) → pos n +ℤ pos 1 ≡ pos (n + 1)
plus_one n = grind int_laws

-- The line of a value that lies `s` dots above the bottom.
line_of_value :
    (h s : ℕ) → s ≤ h * 4 + 3 → (pos h +ℤ pos 1) *ℤ pos 4 -ℤ pos 1 -ℤ pos s ≡ pos (h * 4 + 3 - s)
line_of_value h s le =
    ap (λ z. z *ℤ pos 4 -ℤ pos 1 -ℤ pos s) (plus_one h)
    ∙ ap (λ z. z -ℤ pos 1 -ℤ pos s) (times_four (h + 1))
    ∙ grind (int_laws, le)

module _ {C V : Type 0} (drawille : Drawille C) (straight : Straight drawille)
    (scaled : ℤ → V → ℤ) where
  wall_total :
      (w h : ℕ) (x : ℤ) (color : ℕ) (ps : List Point) (c : Canvas C)
      → Fits w h c.colors
      → All (Inside w h x) ps
      → (d : Canvas C) × (wall drawille scaled color ps c ≡ some d) × Fits w h d.colors
  unfolding wall
  wall_total w h x color [] c fits ins = (c, refl, fits)
  wall_total w h x color (p ∷ ps) c fits ins =
      by_column (ltb_ℤ (pos 0) p.x) refl (wall_total w h x color ps c fits ins.1) (λ d fits'.
        wall_total w h x color ps (record { canvas = drawille.set p c.canvas; colors = d }) fits'
          ins.1)
    where
      by_column :
          (b : Bool)
          → ltb_ℤ (pos 0) p.x ≡ b
          → (d : Canvas C) × (wall drawille scaled color ps c ≡ some d) × Fits w h d.colors
          → ((d : Colors)
              → Fits w h d
              → (e : Canvas C) × (wall drawille scaled color ps
                    (record { canvas = drawille.set p c.canvas; colors = d })
                  ≡ some e)
                × Fits w h e.colors)
          → (d : Canvas C) × ((if b
                then set_color p color c.colors >>= (λ colors.
                  wall drawille scaled color ps
                    (record { canvas = drawille.set p c.canvas; colors = colors }))
                else wall drawille scaled color ps c)
              ≡ some d)
            × Fits w h d.colors
      by_column false e skipped go = skipped
      by_column true e skipped go =
          let (lo, hi, low, high) = ins.0 in
          let (mid, set, fits') =
            set_color_total w h color p c.colors fits (ground (arith, e), hi, low, high) in
          let (end, rest, fits'') = go mid fits' in
          (
            end,
            ap
                  (λ o. o >>= (λ colors.
                    wall drawille scaled color ps
                      (record { canvas = drawille.set p c.canvas; colors = colors })))
                  set
                ∙ rest,
            fits'',
          )

  plot_point_total :
      (w h color : ℕ) (last p : Point) (c : Canvas C)
      → Fits w h c.colors
      → Inside w h (pos 0) p
      → (Inside w h (pos 0) last) ⊎ (last.y ≡ negsuc 0)
      → (d : Canvas C) × (plot_point drawille scaled color last p c ≡ some d) × Fits w h d.colors
  unfolding plot_point
  plot_point_total w h color last p c fits ins before =
      by_first (eqb_ℤ last.y (negsuc 0)) refl before
    where
      by_first :
          (b : Bool)
          → eqb_ℤ last.y (negsuc 0) ≡ b
          → (Inside w h (pos 0) last) ⊎ (last.y ≡ negsuc 0)
          → (d : Canvas C) × ((if b
                then set_color p color c.colors >>= (λ colors.
                  some (record { canvas = drawille.set p c.canvas; colors = colors }))
                else color_points color (drawille.line last p) c.colors >>= (λ colors.
                  some (record { canvas = drawille.draw_line last p c.canvas; colors = colors })))
              ≡ some d)
            × Fits w h d.colors
      by_first true e before =
          let (mid, set, fits') = set_color_total w h color p c.colors fits ins in
          (
            record { canvas = drawille.set p c.canvas; colors = mid },
            ap
                (λ o. o >>= (λ colors.
                  some (record { canvas = drawille.set p c.canvas; colors = colors })))
                set,
            fits',
          )
      by_first false e (inl inside) =
          let (mid, set, fits') =
            color_points_total w h color (drawille.line last p) c.colors fits
              (straight w h (pos 0) last p inside ins) in
          (
            record { canvas = drawille.draw_line last p c.canvas; colors = mid },
            ap
                (λ o. o >>= (λ colors.
                  some (record { canvas = drawille.draw_line last p c.canvas; colors = colors })))
                set,
            fits',
          )
      by_first false e (inr at) = absurd (ground (arith, e, at))

  -- A value that is shown on the canvas.
  abbrev pub Shown : ℕ → V → Type 0
  Shown h v = (s : ℕ) × (scaled (pos h) v ≡ pos s) × (s ≤ h * 4 + 3)

  -- What holds before each value: the last point is on the canvas, or the next is the first.
  abbrev pub Ready : ℕ → ℕ → ℤ → Point → Type 0
  Ready w h x last = (Inside w h (pos 0) last) ⊎ ((last.y ≡ negsuc 0) × (pos 0 ≤ℤ x))

  -- On a canvas of `w` columns and `h` lines, values that lie on it are plotted without an index
  -- out of range, with a scale that is not negative, from a column of the canvas on (if the lines of
  -- drawille-go stay between their ends); the canvas keeps its size.
  pub plot_total :
      (w h : ℕ) (r : Rect) (scale : ℤ) (color : ℕ) (x : ℤ) (last : Point) (vs : List V)
      (c : Canvas C)
      → dy r ≡ pos h
      → pos 0 ≤ℤ scale
      → x ≤ℤ pos (w * 2 + 1)
      → Fits w h c.colors
      → All (Shown h) vs
      → Ready w h x last
      → (d : Canvas C × Bool) × (plot drawille scaled r scale color x last vs c ≡ some d)
        × Fits w h d.0.colors
  unfolding plot
  plot_total w h r scale color x last [] c tall pace hi fits shown ready = ((c, false), refl, fits)
  plot_total w h r scale color x last (v ∷ vs) c tall pace hi fits ((s, at, le), shown) ready =
      by_wall (ltb_ℤ x (pos 0)) (ltb_ℤ (pos 0 -ℤ scale) x) refl ready (λ d fits' ins.
        plot_total w h r scale color (x -ℤ scale) p vs d tall pace (grind (int_laws, hi, pace))
          fits' shown (inl ins))
    where
      p : Point
      p = record { x = x; y = (dy r +ℤ pos 1) *ℤ pos 4 -ℤ pos 1 -ℤ scaled (dy r) v }

      height : p.y ≡ pos (h * 4 + 3 - s)
      height =
          ap (λ z. (z +ℤ pos 1) *ℤ pos 4 -ℤ pos 1 -ℤ scaled z v) tall
          ∙ ap (λ z. (pos h +ℤ pos 1) *ℤ pos 4 -ℤ pos 1 -ℤ z) at
          ∙ line_of_value h s le

      on_lines : (pos 0 ≤ℤ p.y) × (p.y ≤ℤ pos (h * 4 + 3))
      on_lines =
          subst (λ z. (pos 0 ≤ℤ z) × (z ≤ℤ pos (h * 4 + 3))) (sym height) (omega arith, omega arith)

      inside : (z : ℤ) → z ≤ℤ x → Inside w h z p
      inside z lo = (lo, hi, on_lines.0, on_lines.1)

      last_of : Ready w h x last → (Inside w h (pos 0) last) ⊎ (last.y ≡ negsuc 0)
      last_of (inl i) = inl i
      last_of (inr i) = inr i.0

      by_wall :
          (b near : Bool)
          → ltb_ℤ x (pos 0) ≡ b
          → Ready w h x last
          → ((d : Canvas C)
              → Fits w h d.colors
              → Inside w h (pos 0) p
              → (e : Canvas C × Bool) × (plot drawille scaled r scale color (x -ℤ scale) p vs d
                  ≡ some e)
                × Fits w h e.0.colors)
          → (d : Canvas C × Bool) × ((if b
                then (if near
                    then wall drawille scaled color (drawille.line last p) c
                      >>= (λ d. some (d, true))
                    else some (c, true))
                else plot_point drawille scaled color last p c
                  >>= plot drawille scaled r scale color (x -ℤ scale) p vs)
              ≡ some d)
            × Fits w h d.0.colors
      by_wall true false e ready go = ((c, true), refl, fits)
      by_wall true true e (inr (_, lo)) go = absurd (ground (arith, e, lo))
      by_wall true true e (inl (lo, hi', low, high)) go =
          let below : x ≤ℤ pos 0 = ground (arith, e) in
          let lower : x ≤ℤ last.x = omega (int_laws, below, lo) in
          let (d, done, fits') =
            wall_total w h x color (drawille.line last p) c fits
              (straight w h x last p (lower, hi', low, high) (inside x (omega arith))) in
          ((d, true), ap (λ o. o >>= (λ d. some (d, true))) done, fits')
      by_wall false near e ready go =
          let lo : pos 0 ≤ℤ x = ground (arith, e) in
          let (d, done, fits') =
            plot_point_total w h color last p c fits (inside (pos 0) lo) (last_of ready) in
          let (end, rest, fits'') = go d fits' (inside (pos 0) lo) in
          (
            end,
            ap (λ o. o >>= plot drawille scaled r scale color (x -ℤ scale) p vs) done ∙ rest,
            fits'',
          )
