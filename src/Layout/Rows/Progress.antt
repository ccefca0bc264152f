-- ===== src/Layout/Rows/Progress.antt =====
-- `processRow` does not panic and takes at least one row, so the loop of `Layout` ends.
use gotop.Prelude.{
  ℕ, zero, suc, ◌+◌, ◌+ℤ◌, ◌≤◌, ◌<◌, ◌^◌, ℤ, pos, wrap_int_fits, Bool, true, false, List, [], ◌∷◌,
  ◌++◌, none, some, if◌then◌else◌, ltb, length, take, drop, replicate, All, ◌≡◌, ◌≢◌, refl, ap, sym,
  ◌∙◌, arith, length-drop, length-append, take-append-drop, append-nil, drop_tail, length-replicate,
  Option-cases, Bool-cases, inl, inr,
}
use gotop.Layout.Parser.{WidgetRule}
use gotop.Layout.Rows.{
  Placed, Columns, UiRow, tallest, count_max_height, row_height, find_column, append_at, raise_at,
  place, place_row, full, fill, ui_columns, processing, left_over, start, process_row,
}

-- Spans whose sum of two is an `int`.
abbrev pub SpansOk : List WidgetRule → Type 0
SpansOk = All (λ r. r.height < 2 ^ 62)

tallest_le : (h : ℕ) (line : List WidgetRule) → h ≤ tallest h line
unfolding tallest
tallest_le h [] = omega arith
tallest_le h (c ∷ line) = ground (arith, tallest_le (if ltb h c.height then c.height else h) line)

pub le-tallest : (h : ℕ) (line : List WidgetRule) → All (λ r. r.height ≤ tallest h line) line
unfolding tallest
le-tallest h [] = tt
le-tallest h (c ∷ line) =
    let h' = if ltb h c.height then c.height else h in
    (ground (arith, tallest_le h' line), le-tallest h' line)

tallest_lt :
    (h b : ℕ) (line : List WidgetRule) → h < b → All (λ r. r.height < b) line → tallest h line < b
unfolding tallest
tallest_lt h b [] a ok = a
tallest_lt h b (c ∷ line) a (ok, oks) =
    tallest_lt (if ltb h c.height then c.height else h) b line (ground arith) oks

pub row_height-tallest : (first : List WidgetRule) → row_height first ≡ tallest 1 first
unfolding count_max_height
row_height-tallest first = ground (arith, tallest_le 1 first)

length-append_at :
    (k : ℕ) (p : Placed) (cs : List (List Placed))
    → k < length cs
    → (cs' : List (List Placed)) × (append_at k p cs ≡ some cs') × (length cs' ≡ length cs)
unfolding append_at
length-append_at k p [] h = elim h [ ]
length-append_at zero p (c ∷ cs) h = ((c ++ (p ∷ [])) ∷ cs, refl, refl)
length-append_at (suc k) p (c ∷ cs) h =
    let (cs', e, same) = length-append_at k p cs (omega arith) in (c ∷ cs', rw e, ap suc same)

length-raise_at : (k h : ℕ) (hs : List ℤ) → length (raise_at k h hs) ≡ length hs
unfolding raise_at
length-raise_at k h [] = refl
length-raise_at zero h (ch ∷ hs) = refl
length-raise_at (suc k) h (ch ∷ hs) = ap suc (length-raise_at k h hs)

drop-raise_at : (k h : ℕ) (hs : List ℤ) → drop (suc k) (raise_at k h hs) ≡ drop (suc k) hs
unfolding raise_at
drop-raise_at k h [] = refl
drop-raise_at zero h (ch ∷ hs) = refl
drop-raise_at (suc k) h (ch ∷ hs) = drop-raise_at k h hs

find_column-lt :
    (max h k : ℕ) (hs : List ℤ) {j : ℕ}
    → find_column max h k hs ≡ some j
    → (k ≤ j) × (j < k + length hs)
unfolding find_column
find_column-lt max h k [] e = absurd (ground arith)
find_column-lt max h k (ch ∷ hs) {j} e = ground (arith, find_column-lt max h (suc k) hs {j = j})

-- There are as many heights as columns.
abbrev pub Even : Columns → Type 0
Even st = length st.items ≡ length st.heights

place-Even :
    (max k : ℕ) (w : WidgetRule) (st : Columns)
    → Even st
    → k < length st.heights
    → (st' : Columns) × (place max k w st ≡ some st')
      × Even st'
      × (st'.heights ≡ raise_at k w.height st.heights)
unfolding place
place-Even max k w st even h =
    let p : Placed = record { rule = w; whole = max } in
    let (items, e, same) = length-append_at k p st.items (omega (arith, even)) in
    (
      record { items = items; heights = raise_at k w.height st.heights },
      rw e,
      same ∙ even ∙ sym (length-raise_at k w.height st.heights),
      refl,
    )

-- One round of the loop over a row.
place_row_step :
    (max w : ℕ) (widg : WidgetRule) (row : List WidgetRule) (st st' : Columns) (k : ℕ)
    → find_column max widg.height w (drop w st.heights) ≡ some k
    → place max k widg st ≡ some st'
    → place_row max w (widg ∷ row) st ≡ place_row max (suc w) row st'
unfolding place_row
place_row_step max w widg row st st' k found placed = ground (arith, found, placed)

place_row_stuck :
    (max w : ℕ) (widg : WidgetRule) (row : List WidgetRule) (st : Columns)
    → find_column max widg.height w (drop w st.heights) ≡ none
    → place_row max w (widg ∷ row) st ≡ some (st, false)
unfolding place_row
place_row_stuck max w widg row st none_left = ground (arith, none_left)

column-lt :
    (max h w : ℕ) (hs : List ℤ) (k : ℕ) → find_column max h w (drop w hs) ≡ some k → k < length hs
column-lt max h w hs k e =
    let bounds = find_column-lt max h w (drop w hs) e in
    omega (arith, bounds.0, bounds.1, length-drop w hs)

-- A row never indexes a column that is not there.
place_row-Even :
    (max w : ℕ) (row : List WidgetRule) (st : Columns)
    → Even st
    → (st' : Columns) × (b : Bool) × (place_row max w row st ≡ some (st', b)) × Even st'
place_row-Even max w [] st even = (st, true, unfold place_row in refl, even)
place_row-Even max w (widg ∷ row) st even =
    elim (Option-cases (find_column max widg.height w (drop w st.heights))) [
      | inl e ↦ (st, false, place_row_stuck max w widg row st e, even)
      | inr (k, e) ↦
          let (st1, placed, even1, _) =
            place-Even max k widg st even (column-lt max widg.height w st.heights k e) in
          let (st', b, rest, even') = place_row-Even max (suc w) row st1 even1 in
          (st', b, place_row_step max w widg row st st1 k e placed ∙ rest, even')
    ]

-- Columns that are still empty take the rest of the first row, one each.
find_column_empty :
    (max h w : ℕ) (hs : List ℤ) → h ≤ max → max < 2 ^ 62 → find_column max h w (pos 0 ∷ hs) ≡ some w
unfolding find_column ◌+ℤ◌
find_column_empty max h w hs a b = ground (arith, wrap_int_fits (0 + h) (omega arith))

place_row-first :
    (max w : ℕ) (row : List WidgetRule) (st : Columns)
    → max < 2 ^ 62
    → All (λ r. r.height ≤ max) row
    → Even st
    → drop w st.heights ≡ replicate (length row) (pos 0)
    → (st' : Columns) × (place_row max w row st ≡ some (st', true)) × Even st'
place_row-first max w [] st small fit even empty = (st, unfold place_row in refl, even)
place_row-first max w (widg ∷ row) st small (fit, fits) even empty =
    let found : find_column max widg.height w (drop w st.heights) ≡ some w =
      rw empty (find_column_empty max widg.height w (replicate (length row) (pos 0)) fit small) in
    let (st1, placed, even1, heights) =
      place-Even max w widg st even (column-lt max widg.height w st.heights w found) in
    let empty1 : drop (suc w) st1.heights ≡ replicate (length row) (pos 0) =
      ap (drop (suc w)) heights
      ∙ drop-raise_at w widg.height st.heights
      ∙ drop_tail w st.heights _ empty in
    let (st', rest, even') = place_row-first max (suc w) row st1 small fits even1 empty1 in
    (st', place_row_step max w widg row st st1 w found placed ∙ rest, even')

-- A row of 0 heights is not full.
not-full : (max n : ℕ) → full max (replicate (suc n) (pos 0)) ≡ false
unfolding full
not-full max n = ground arith

module _ (max : ℕ) (row : List WidgetRule) (rows : List (List WidgetRule)) (st st1 : Columns) where
  fill-full : full max st.heights ≡ true → fill max (row ∷ rows) st ≡ some (st, row ∷ rows)
  unfolding fill
  fill-full e = ground (arith, e)

  fill_next :
      full max st.heights ≡ false
      → place_row max 0 row st ≡ some (st1, true)
      → fill max (row ∷ rows) st ≡ fill max rows st1
  unfolding fill
  fill_next e placed = ground (arith, e, placed)

  fill_stop :
      full max st.heights ≡ false
      → place_row max 0 row st ≡ some (st1, false)
      → fill max (row ∷ rows) st ≡ some (st1, row ∷ rows)
  unfolding fill
  fill_stop e placed = ground (arith, e, placed)

-- What a call of the loop over the rows returns: no panic, and no more rows than it was given.
abbrev Fills : ℕ → List (List WidgetRule) → Columns → Type 0
Fills max rows st =
    (st' : Columns) × (left : List (List WidgetRule)) × (fill max rows st ≡ some (st', left))
    × (length left ≤ length rows)

fill_round :
    (max : ℕ) (row : List WidgetRule) (rows : List (List WidgetRule)) (st st1 : Columns) (b : Bool)
    → place_row max 0 row st ≡ some (st1, b)
    → Fills max rows st1
    → Fills max (row ∷ rows) st
fill_round max row rows st st1 b placed (st2, left, rest, le) =
    elim (Bool-cases (full max st.heights)) [
      | inl e ↦ (st, row ∷ rows, fill-full max row rows st st1 e, omega arith)
      | inr e ↦ go b placed e
    ]
  where
    go :
        (b' : Bool)
        → place_row max 0 row st ≡ some (st1, b')
        → full max st.heights ≡ false
        → Fills max (row ∷ rows) st
    go true placed' e = (st2, left, fill_next max row rows st st1 e placed' ∙ rest, omega arith)
    go false placed' e = (st1, row ∷ rows, fill_stop max row rows st st1 e placed', omega arith)

fill-Even : (max : ℕ) (rows : List (List WidgetRule)) (st : Columns) → Even st → Fills max rows st
fill-Even max [] st even = (st, [], unfold fill in refl, omega arith)
fill-Even max (row ∷ rows) st even =
    let (st1, b, placed, even1) = place_row-Even max 0 row st even in
    fill_round max row rows st st1 b placed (fill-Even max rows st1 even1)

-- A row as `ParseLayout` makes it, with spans whose sum of two is an `int`.
abbrev pub Usable : List WidgetRule → Type 0
Usable row = (row ≢ []) × SpansOk row

start_heights :
    (r : WidgetRule) (first : List WidgetRule)
    → (start (r ∷ first)).heights ≡ replicate (suc (length first)) (pos 0)
start_heights r first =
    ap (λ (n : ℕ). replicate n (pos 0))
      (let one : (if ltb (suc (length first)) 1 then 1 else suc (length first))
            ≡ suc (length first) =
          ground arith in
        one)

start-Even : (r : WidgetRule) (first : List WidgetRule) → Even (start (r ∷ first))
start-Even r first =
    length-replicate (suc (length first)) _
    ∙ sym (ap length (start_heights r first) ∙ length-replicate (suc (length first)) (pos 0))

-- The first row finds a column for each of its widgets.
fill-first :
    (max : ℕ) (r : WidgetRule) (first : List WidgetRule) (rows : List (List WidgetRule))
    → max < 2 ^ 62
    → All (λ c. c.height ≤ max) (r ∷ first)
    → (st : Columns) × (left : List (List WidgetRule)) × (fill max
          ((r ∷ first) ∷ rows)
          (start (r ∷ first))
        ≡ some (st, left))
      × (length left ≤ length rows)
fill-first max r first rows small fits =
    let st0 = start (r ∷ first) in
    let (st1, placed, even1) =
      place_row-first max 0 (r ∷ first) st0 small fits (start-Even r first)
        (start_heights r first) in
    let (st2, left, rest, le) = fill-Even max rows st1 even1 in
    (
      st2,
      left,
      fill_next max (r ∷ first) rows st0 st1
            (ap (full max) (start_heights r first) ∙ not-full max (length first)) placed
          ∙ rest,
      le,
    )

row_height-fits : (first : List WidgetRule) → All (λ c. c.height ≤ row_height first) first
row_height-fits first = rw (row_height-tallest first) (le-tallest 1 first)

row_height-lt : (first : List WidgetRule) → SpansOk first → row_height first < 2 ^ 62
row_height-lt first ok =
    rw (row_height-tallest first) (tallest_lt 1 (2 ^ 62) first (omega arith) ok)

pub processing-append :
    (h : ℕ) (rows : List (List WidgetRule)) → processing h rows ++ left_over h rows ≡ rows
processing-append h rows = elim (Bool-cases (ltb h (length rows))) [
  | inl e ↦ rw e (take-append-drop h rows)
  | inr e ↦ rw e (append-nil rows)
]

processing-cons :
    (h : ℕ) (first : List WidgetRule) (rest : List (List WidgetRule))
    → 1 ≤ h
    → (more : List (List WidgetRule)) × (processing h (first ∷ rest) ≡ first ∷ more)
processing-cons zero first rest a = absurd (omega arith)
processing-cons (suc h) first rest a = elim (Bool-cases (ltb (suc h) (length (first ∷ rest)))) [
  | inl e ↦ (take h rest, rw e)
  | inr e ↦ (rest, rw e)
]

row_height_pos : (first : List WidgetRule) → 1 ≤ row_height first
row_height_pos first = rw (row_height-tallest first) (tallest_le 1 first)

process_row_lem :
    (first : List WidgetRule) (rest left : List (List WidgetRule)) (st : Columns)
    → fill (row_height first) (processing (row_height first) (first ∷ rest)) (start first)
      ≡ some (st, left)
    → (ui : UiRow) × (process_row (first ∷ rest)
        ≡ some (ui, left ++ left_over (row_height first) (first ∷ rest)))
unfolding process_row
process_row_lem first rest left st e =
    (record { height = row_height first; columns = ui_columns first st.items }, rw e)

-- `processRow`, on rows of which the first has a widget and spans whose sum of two is an `int`,
-- does not panic, and returns fewer rows than it was given.
pub length-process_row :
    (first : List WidgetRule) (rest : List (List WidgetRule))
    → Usable first
    → (ui : UiRow) × (left : List (List WidgetRule)) × (process_row (first ∷ rest)
        ≡ some (ui, left))
      × (length left ≤ length rest)
length-process_row [] rest ok = absurd (ok.0 refl)
length-process_row (r ∷ first) rest ok =
    let h = row_height (r ∷ first) in
    let (more, head) = processing-cons h (r ∷ first) rest (row_height_pos (r ∷ first)) in
    let (st, left, filled, le) =
      fill-first h r first more (row_height-lt (r ∷ first) ok.1) (row_height-fits (r ∷ first)) in
    let (ui, e) = process_row_lem (r ∷ first) rest left st (rw head filled) in
    let whole = processing-append h ((r ∷ first) ∷ rest) in
    (
      ui,
      left ++ left_over h ((r ∷ first) ∷ rest),
      e,
      omega (
        arith,
        length-append left (left_over h ((r ∷ first) ∷ rest)),
        length-append (processing h ((r ∷ first) ∷ rest)) (left_over h ((r ∷ first) ∷ rest)),
        ap length whole,
        ap length head,
      ),
    )
