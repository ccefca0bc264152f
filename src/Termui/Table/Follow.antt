-- ===== src/Termui/Table/Follow.antt =====
-- The cursor follows its item: what `Draw` does to `SelectedItem` and `SelectedRow`.
use native.Mathlib.Nat.{add-zero}
use gotop.Prelude.{
  subst, get_elem?-take, get_elem?_of_take, get_elem?-drop, length-take, ℕ, zero, suc, ◌+◌, ◌-◌,
  ◌≤◌, ◌<◌, ℤ, pos, ◌-ℤ◌, true, false, List, [], ◌∷◌, Option, some, length, get_elem?, drop, Bytes,
  beq_iff, pos_part, arith, ◌≡◌, ◌≢◌, refl, Option-cases, bind-eq-some, inl, inr, ap, ◌∙◌, sym,
}
use gotop.Termui.Geometry.{dy}
use gotop.Termui.Table.{Table}
use gotop.Termui.Table.Draw.{
  Write, is_selected, draw_row, draw_rows, draw, shown, select, draw_body, draw_header, resize,
  columns_of,
}

-- The cursor is on a row from `lo` on and below `hi`, and the selected item is that row's.
pub record OnItem (lo hi : ℕ) (t : Table) : Type 0 where
  pub at : ℕ
  pub line : List Bytes
  pub here : t.selected_row ≡ pos at
  pub low : lo ≤ at
  pub high : at < hi
  pub row : get_elem? t.rows at ≡ some line
  pub item : get_elem? line t.unique_col ≡ some t.selected_item

-- What drawing a row does to the table.
data RowEffect (t : Table) (n : ℕ) (line : List Bytes) (t' : Table) : Type 0 where
  passed : t' ≡ t → is_selected t n line ≡ some false → RowEffect t n line t'
  marked :
      (item : Bytes)
      → get_elem? line t.unique_col ≡ some item
      → t' ≡ select t n item
      → (t.selected_item ≢ [] → t.selected_item ≡ item)
      → RowEffect t n line t'

module _ (trim : Bytes → ℤ → Bytes) (cols : List (ℤ × ℤ)) where
  draw_row-RowEffect :
      (t : Table) (n : ℕ) (line : List Bytes) {t' : Table} {ws : List Write}
      → t.show_cursor ≡ true
      → draw_row trim cols t n line ≡ some (t', ws)
      → RowEffect t n line t'
  unfolding draw_row
  draw_row-RowEffect t n line shows e = elim (Option-cases (is_selected t n line)) [
    | inl fault ↦ absurd (ground arith)
    | inr (false, miss) ↦ passed (ground arith) miss
    | inr (true, hit) ↦ elim (Option-cases (get_elem? line t.unique_col)) [
      | inl missing ↦ absurd (ground arith)
      | inr (item, found) ↦ marked item found (ground arith) (same item hit found)
    ]
  ]
    where
      same :
          (item : Bytes)
          → is_selected t n line ≡ some true
          → get_elem? line t.unique_col ≡ some item
          → t.selected_item ≢ []
          → t.selected_item ≡ item
      same item hit found named =
          unfold is_selected in
          ground (arith, beq_iff t.selected_item [], beq_iff t.selected_item item)

-- `rows` stand in the table from row `n` on.
abbrev Stands : Table → ℕ → List (List Bytes) → Type 0
Stands t n rows =
    (i : ℕ) (line : List Bytes)
    → get_elem? rows i ≡ some line
    → get_elem? t.rows (n + i) ≡ some line

Stands-tail :
    (t : Table) (n : ℕ) (line : List Bytes) (rows : List (List Bytes))
    → Stands t n (line ∷ rows)
    → Stands t (n + 1) rows
Stands-tail t n line rows h i l e =
    let shift : n + 1 + i ≡ n + suc i = omega arith in rw shift (h (suc i) l e)

Stands-head :
    (t : Table) (n : ℕ) (line : List Bytes) (rows : List (List Bytes))
    → Stands t n (line ∷ rows)
    → get_elem? t.rows n ≡ some line
Stands-head t n line rows h =
    subst (λ k. get_elem? t.rows k ≡ some line) (add-zero n) (h 0 line refl)

-- What one row, or the loop, leaves as it was.
record Kept (t t' : Table) : Type 0 where
  rows : t'.rows ≡ t.rows
  unique : t'.unique_col ≡ t.unique_col
  cursor : t'.show_cursor ≡ t.show_cursor
  named : t.selected_item ≢ [] → t'.selected_item ≡ t.selected_item

RowEffect-Kept :
    {t : Table} {n : ℕ} {line : List Bytes} {t' : Table} → RowEffect t n line t' → Kept t t'
RowEffect-Kept (passed e miss) =
    rw e (record { rows = refl; unique = refl; cursor = refl; named = λ _. refl })
RowEffect-Kept (marked item found e keep) =
    rw e (record { rows = refl; unique = refl; cursor = refl; named = λ h. sym (keep h) })

OnItem-select :
    {lo hi n : ℕ} {line : List Bytes} (t : Table) (item : Bytes)
    → get_elem? line t.unique_col ≡ some item
    → get_elem? t.rows n ≡ some line
    → lo ≤ n
    → n < hi
    → OnItem lo hi (select t n item)
OnItem-select {n} {line} t item found here a b = record {
  at = n;
  line = line;
  here = refl;
  low = a;
  high = b;
  row = here;
  item = found;
}

module _ {lo hi : ℕ} {t : Table} {n : ℕ} {line : List Bytes} where
  RowEffect-stays :
      {t' : Table}
      → RowEffect t n line t'
      → get_elem? t.rows n ≡ some line
      → lo ≤ n
      → n < hi
      → OnItem lo hi t
      → OnItem lo hi t'
  RowEffect-stays (passed e miss) here a b on = rw e on
  RowEffect-stays (marked item found e keep) here a b on =
      rw e (OnItem-select t item found here a b)

  RowEffect-hits :
      {t' : Table}
      → RowEffect t n line t'
      → get_elem? t.rows n ≡ some line
      → lo ≤ n
      → n < hi
      → is_selected t n line ≡ some true
      → OnItem lo hi t'
  RowEffect-hits (passed e miss) here a b hit = absurd (ground arith)
  RowEffect-hits (marked item found e keep) here a b hit =
      rw e (OnItem-select t item found here a b)

module _ (trim : Bytes → ℤ → Bytes) (cols : List (ℤ × ℤ)) where
  -- The loop over the rows, seen as a first row and the rest of the loop.
  draw_rows_step :
      (t : Table) (n : ℕ) (line : List Bytes) (rows : List (List Bytes)) {t' : Table}
      {ws : List Write}
      → t.show_cursor ≡ true
      → draw_rows trim cols t n (line ∷ rows) ≡ some (t', ws)
      → (t1 : Table) × (ws' : List Write) × RowEffect t n line t1
        × (draw_rows trim cols t1 (n + 1) rows ≡ some (t', ws'))
  unfolding draw_rows
  draw_rows_step t n line rows shows e =
      let (drawn, first, later) = bind-eq-some (draw_row trim cols t n line) _ e in
      let (more, rest, final) = bind-eq-some (draw_rows trim cols drawn.0 (n + 1) rows) _ later in
      (drawn.0, more.1, draw_row-RowEffect trim cols t n line shows first, ground arith)

  -- Once on an item, the cursor is on an item to the end of the loop.
  draw_rows-stays :
      (rows : List (List Bytes)) (t : Table) (n : ℕ) {lo hi : ℕ} {t' : Table} {ws : List Write}
      → t.show_cursor ≡ true
      → draw_rows trim cols t n rows ≡ some (t', ws)
      → Stands t n rows
      → lo ≤ n
      → n + length rows ≤ hi
      → OnItem lo hi t
      → OnItem lo hi t'
  draw_rows-stays [] t n {t'} shows e same a b on =
      let e' : t' ≡ t = unfold draw_rows in ground arith in rw e' on
  draw_rows-stays (line ∷ rows) t n shows e same a b on =
      let (t1, ws', step, rest) = draw_rows_step t n line rows shows e in
      let kept = RowEffect-Kept step in
      draw_rows-stays rows t1 (n + 1) (kept.cursor ∙ shows) rest
        (rw (kept.rows) (Stands-tail t n line rows same)) (omega arith) (omega arith)
        (RowEffect-stays step (Stands-head t n line rows same) a (omega arith) on)

  -- A row that the cursor is on puts the cursor on an item.
  draw_rows-hits :
      (rows : List (List Bytes)) (t : Table) (n i : ℕ) (found : List Bytes) {lo hi : ℕ} {t' : Table}
      {ws : List Write}
      → t.show_cursor ≡ true
      → draw_rows trim cols t n rows ≡ some (t', ws)
      → Stands t n rows
      → lo ≤ n
      → n + length rows ≤ hi
      → get_elem? rows i ≡ some found
      → is_selected t (n + i) found ≡ some true
      → OnItem lo hi t'
  draw_rows-hits [] t n i found shows e same a b there hit = absurd (ground arith)
  draw_rows-hits (line ∷ rows) t n zero found {lo} {hi} shows e same a b there hit =
      let (t1, ws', step, rest) = draw_rows_step t n line rows shows e in
      let kept = RowEffect-Kept step in
      draw_rows-stays rows t1 (n + 1) (kept.cursor ∙ shows) rest
        (rw (kept.rows) (Stands-tail t n line rows same)) (omega arith) (omega arith)
        (RowEffect-hits step (Stands-head t n line rows same) a (omega arith)
          (cc (ap (λ (k : ℕ). is_selected t k found) (add-zero n), there, hit)))
  draw_rows-hits (line ∷ rows) t n (suc i) found {lo} {hi} shows e same a b there hit =
      let (t1, ws', step, rest) = draw_rows_step t n line rows shows e in
      let tail = Stands-tail t n line rows same in
      elim step [
        | passed e' miss ↦
            draw_rows-hits rows t1 (n + 1) i found (rw e' shows) rest (rw e' tail) (omega arith)
              (omega arith) there
              (let shift : n + suc i ≡ n + 1 + i = omega arith in rw e' (rw shift at hit))
        | marked item at e' keep ↦
            draw_rows-stays rows t1 (n + 1) (rw e' shows) rest (rw e' tail) (omega arith)
              (omega arith)
              (rw e' (OnItem-select t item at (Stands-head t n line rows same) a (omega arith)))
      ]

  -- The loop keeps the rows, and the name of an item that it had.
  draw_rows-Kept :
      (rows : List (List Bytes)) (t : Table) (n : ℕ) {t' : Table} {ws : List Write}
      → t.show_cursor ≡ true
      → draw_rows trim cols t n rows ≡ some (t', ws)
      → Kept t t'
  draw_rows-Kept [] t n {t'} shows e =
      let e' : t' ≡ t = unfold draw_rows in ground arith in
      rw e' (record { rows = refl; unique = refl; cursor = refl; named = λ _. refl })
  draw_rows-Kept (line ∷ rows) t n shows e =
      let (t1, ws', step, rest) = draw_rows_step t n line rows shows e in
      let kept = RowEffect-Kept step in
      let later = draw_rows-Kept rows t1 (n + 1) (kept.cursor ∙ shows) rest in
      record {
        rows = later.rows ∙ kept.rows;
        unique = later.unique ∙ kept.unique;
        cursor = later.cursor ∙ kept.cursor;
        named = λ h. later.named (rw (kept.named h) h) ∙ kept.named h;
      }

-- One past the last row that is shown when the view starts at `top`.
abbrev pub shown_end : Table → ℕ → ℕ
shown_end t top = top + pos_part (dy t.inner -ℤ pos 1)

final_eq :
    {t' : Table} {ws location : List Write} (body : Table × List Write)
    → ◌≡◌ {A = Option (Table × List Write)} (some (body.0, location)) (some (t', ws))
    → ◌≡◌ {A = Option (Table × List Write)} (some body) (some (t', body.1))
final_eq (t0, ws0) e = cc

-- The loop over the rows, inside a call of `Draw`.
draw_rows_of_draw :
    (trim : Bytes → ℤ → Bytes) (t : Table) (top : ℕ) {t' : Table} {ws : List Write}
    → t.top_row ≡ pos top
    → draw trim t ≡ some (t', ws)
    → (body : List Write) × (draw_rows trim (columns_of (resize t)) (resize t) top (shown t top)
        ≡ some (t', body))
unfolding draw
draw_rows_of_draw trim t top view e =
    let (header, _, later) =
      bind-eq-some (draw_header (resize t) t.header (columns_of (resize t))) _ e in
    let (body, drawn, final) = bind-eq-some (draw_body trim (resize t) t.top_row) _ later in
    (body.1, sym (ap (draw_body trim (resize t)) view) ∙ drawn ∙ final_eq body final)

is_selected-resize :
    (t : Table) (n : ℕ) (line : List Bytes) → is_selected (resize t) n line ≡ is_selected t n line
unfolding is_selected
is_selected-resize t n line = refl

Stands-shown : (t : Table) (top : ℕ) → Stands t top (shown t top)
Stands-shown t top i line e =
    sym (get_elem?-drop top i t.rows) ∙ get_elem?_of_take _ i (drop top t.rows) e

-- `Draw` with the cursor shown, on a view that starts at row `top`: if a row among those shown is
-- the row of the cursor (it holds the selected item; or no item is selected, and it is the
-- selected row), then afterwards the cursor is on a shown row, the selected item is that row's,
-- and a selected item stays the same. So the cursor follows its item when rows have moved.
pub draw-OnItem :
    (trim : Bytes → ℤ → Bytes) (t : Table) (top i : ℕ) (line : List Bytes) {t' : Table}
    {ws : List Write}
    → t.show_cursor ≡ true
    → t.top_row ≡ pos top
    → get_elem? t.rows i ≡ some line
    → top ≤ i
    → i < shown_end t top
    → is_selected t i line ≡ some true
    → draw trim t ≡ some (t', ws)
    → OnItem top (shown_end t top) t'
      × (t'.rows ≡ t.rows)
      × (t.selected_item ≢ [] → t'.selected_item ≡ t.selected_item)
draw-OnItem trim t top i line shows view row low high hit e =
    let (body, loop) = draw_rows_of_draw trim t top view e in
    let kept =
      draw_rows-Kept trim (columns_of (resize t)) (shown t top) (resize t) top shows loop in
    let at : top + (i - top) ≡ i = omega arith in
    let there : get_elem? (shown t top) (i - top) ≡ some line =
      get_elem?-take _ (i - top) (drop top t.rows) (omega arith)
      ∙ get_elem?-drop top (i - top) t.rows
      ∙ rw at row in
    (
      draw_rows-hits trim (columns_of (resize t)) (shown t top) (resize t) top (i - top) line shows
          loop (Stands-shown t top) (omega arith)
          (omega (arith, length-take (pos_part (dy t.inner -ℤ pos 1)) (drop top t.rows))) there
          (rw at (is_selected-resize t i line ∙ hit)),
      kept.rows,
      kept.named,
    )
