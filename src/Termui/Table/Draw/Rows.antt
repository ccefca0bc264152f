-- ===== src/Termui/Table/Draw/Rows.antt =====
-- What `Draw` of termui/table.go keeps: the rows, and the column that tells them apart.
use gotop.Prelude.{
  ℤ, pos, Bool, true, false, List, [], ◌∷◌, ◌++◌, Option, ◌>>=◌, bind-eq-some, negsuc, subst,
  get_elem?, ℕ, ◌+◌, some, if◌then◌else◌, Bytes, ◌≡◌, refl, ◌∙◌,
}
use gotop.Termui.Table.{Table}
use gotop.Termui.Table.Draw.{
  Write, draw, draw_rows, draw_row, draw_body, draw_header, resize, columns_of, select, is_selected,
  paint, line_of, draw_cells, Style, cursor, plain,
}

-- Two tables with the same rows and the same column that tells the rows apart.
pub record SameRows (t u : Table) : Type 0 where
  pub rows : t.rows ≡ u.rows
  pub column : t.unique_col ≡ u.unique_col

trans-SameRows : {t u v : Table} → SameRows u t → SameRows v u → SameRows v t
trans-SameRows h k = record { rows = k.rows ∙ h.rows; column = k.column ∙ h.column }

-- A drawing keeps the rows and the column.
record Keeps (t : Table) (o : Option (Table × List Write)) : Type 0 where
  kept : (r : Table × List Write) → o ≡ some r → SameRows r.0 t

bind-Keeps :
    {A : Type 0} (t : Table) (o : Option A) (k : A → Option (Table × List Write))
    → ((a : A) → o ≡ some a → Keeps t (k a))
    → Keeps t (o >>= k)
bind-Keeps t o k h = record {
  kept = λ r e. let (a, got, later) = bind-eq-some o k e in (h a got).kept r later;
}

if-Keeps :
    (t : Table) (b : Bool) (o p : Option (Table × List Write))
    → Keeps t o
    → Keeps t p
    → Keeps t (if b then o else p)
if-Keeps t true o p h k = h
if-Keeps t false o p h k = k

some-Keeps : (t u : Table) (ws : List Write) → SameRows u t → Keeps t (some (u, ws))
some-Keeps t u ws same = record {
  kept = λ r e. let p : u ≡ r.0 = cc in subst (λ v. SameRows v t) p same;
}

module _ (trim : Bytes → ℤ → Bytes) where
  draw_row-Keeps :
      (cols : List (ℤ × ℤ)) (t : Table) (n : ℕ) (row : List Bytes)
      → Keeps t (draw_row trim cols t n row)
  unfolding draw_row
  draw_row-Keeps cols t n row =
      bind-Keeps t (if t.show_cursor then is_selected t n row else some false) _ (λ hit _.
        if-Keeps t hit _ _
          (bind-Keeps t (paint t (line_of t n) t.col_widths) _ (λ painted _.
            bind-Keeps t (get_elem? row t.unique_col) _ (λ item _.
              bind-Keeps t (cells_in (cursor t.cursor_color)) _ (λ cells _.
                some-Keeps t (select t n item) (painted ++ cells)
                  (record { rows = refl; column = refl })))))
          (bind-Keeps t (cells_in plain) _
            (λ cells _. some-Keeps t t cells (record { rows = refl; column = refl }))))
    where
      cells_in : Style → Option (List Write)
      cells_in style = draw_cells trim t style (line_of t n) cols row

  draw_rows-Keeps :
      (cols : List (ℤ × ℤ)) (t : Table) (n : ℕ) (rows : List (List Bytes))
      → Keeps t (draw_rows trim cols t n rows)
  unfolding draw_rows
  draw_rows-Keeps cols t n [] = some-Keeps t t [] (record { rows = refl; column = refl })
  draw_rows-Keeps cols t n (row ∷ rows) = bind-Keeps t (draw_row trim cols t n row) _ (λ drawn e.
      bind-Keeps t (draw_rows trim cols drawn.0 (n + 1) rows) _ (λ more e'.
        some-Keeps t more.0 (drawn.1 ++ more.1) (
          trans-SameRows ((draw_row-Keeps cols t n row).kept drawn e)
            ((draw_rows-Keeps cols drawn.0 (n + 1) rows).kept more e'))))

  draw_body-Keeps : (t : Table) (row : ℤ) → Keeps t (draw_body trim t row)
  draw_body-Keeps t (pos first) = draw_rows-Keeps (columns_of t) t first _
  draw_body-Keeps t (negsuc n) = some-Keeps t t [] (record { rows = refl; column = refl })

  draw-Keeps : (t : Table) → Keeps t (draw trim t)
  unfolding draw
  draw-Keeps t =
      let same : SameRows (resize t) t = record { rows = refl; column = refl } in
      bind-Keeps t (draw_header (resize t) t.header (columns_of (resize t))) _ (λ header _.
        bind-Keeps t (draw_body trim (resize t) t.top_row) _ (λ body e.
          some-Keeps t body.0 _
            (trans-SameRows same ((draw_body-Keeps (resize t) t.top_row).kept body e))))

  pub draw-SameRows :
      (t : Table) {t' : Table} {ws : List Write} → draw trim t ≡ some (t', ws) → SameRows t' t
  draw-SameRows t {t'} {ws} e = (draw-Keeps t).kept (t', ws) e
