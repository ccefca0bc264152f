-- ===== src/Layout/Rows.antt =====
-- `Layout`, `processRow`, `countNumRows` and `countMaxHeight` of layout/layout.go. A slice of rows
-- is a list: the `append` of `processRow` writes each row over itself, so nothing is aliased.
-- `none` is an index out of range. The quotients that `ui.NewRow` gets are kept as fractions.
pub mod Progress
pub mod Cover
use gotop.Prelude.{
  ℕ, zero, suc, ◌+◌, ℤ, pos, ◌+ℤ◌, leb_ℤ, ltb_ℤ, wrap_int, pos_part, Bool, true, false, not, ◌&&◌,
  List, [], ◌∷◌, ◌++◌, Option, none, some, ◌>>=◌, if◌then◌else◌, ltb, map, length, set, take, drop,
  replicate,
}
use gotop.Layout.Parser.{Weight, WidgetRule}

-- The loop over one row that both counts make: the greatest height, and 1 at least.
unfoldable pub tallest : ℕ → List WidgetRule → ℕ
tallest h [] = h
tallest h (c ∷ line) = tallest (if ltb h c.height then c.height else h) line

-- `rs = rs[h:]` as long as that leaves a row; a round for each row is enough.
unfoldable pub num_rows : ℕ → List (List WidgetRule) → ℤ
unfolding tallest
num_rows zero rs = pos 0
num_rows (suc fuel) [] = pos 0
num_rows (suc fuel) (line ∷ rs) =
    let h = tallest 1 line in
    let later = num_rows fuel (drop h (line ∷ rs)) in
    if ltb h (length (line ∷ rs)) then wrap_int (pos 1 +ℤ later) else pos 1

unfoldable pub count_num_rows : List (List WidgetRule) → ℤ
unfolding num_rows
count_num_rows rs = num_rows (length rs) rs

unfoldable pub max_height : ℕ → List (List WidgetRule) → ℤ
unfolding tallest
max_height zero rs = pos 0
max_height (suc fuel) [] = pos 0
max_height (suc fuel) (line ∷ rs) =
    let h = tallest 1 line in
    let later = max_height fuel (drop h (line ∷ rs)) in
    if ltb h (length (line ∷ rs)) then wrap_int (pos h +ℤ later) else pos h

unfoldable pub count_max_height : List (List WidgetRule) → ℤ
unfolding max_height
count_max_height rs = max_height (length rs) rs

-- `ui.NewRow(float64(widg.Height)/float64(maxHeight), widget)`
pub record Placed : Type 0 where
  pub rule : WidgetRule
  pub whole : ℕ

-- `columns` and `colHeights`
pub record Columns : Type 0 where
  pub items : List (List Placed)
  pub heights : List ℤ

-- The first column from `k` on that has room for a widget of height `h`.
unfoldable pub find_column : ℕ → ℕ → ℕ → List ℤ → Option ℕ
find_column max h k [] = none
find_column max h k (ch ∷ heights) =
    let later = find_column max h (suc k) heights in
    if leb_ℤ (wrap_int (ch +ℤ pos h)) (pos max) then some k else later

-- `columns[k] = append(columns[k], item)`
unfoldable pub append_at : ℕ → Placed → List (List Placed) → Option (List (List Placed))
append_at k p [] = none
append_at zero p (c ∷ cs) = some ((c ++ (p ∷ [])) ∷ cs)
append_at (suc k) p (c ∷ cs) = do cs' ← append_at k p cs; some (c ∷ cs')

-- `colHeights[k] += widg.Height`
unfoldable pub raise_at : ℕ → ℕ → List ℤ → List ℤ
raise_at k h [] = []
raise_at zero h (ch ∷ heights) = wrap_int (ch +ℤ pos h) ∷ heights
raise_at (suc k) h (ch ∷ heights) = ch ∷ raise_at k h heights

unfoldable pub place : ℕ → ℕ → WidgetRule → Columns → Option Columns
unfolding append_at raise_at
place max k widg st = do
  items ← append_at k (record { rule = widg; whole = max }) st.items
  some (record { items = items; heights = raise_at k widg.height st.heights })

-- The widgets of a row from the `w`-th on; `false` says that one found no column.
unfoldable pub place_row : ℕ → ℕ → List WidgetRule → Columns → Option (Columns × Bool)
unfolding find_column place
place_row max w [] st = some (st, true)
place_row max w (widg ∷ row) st = elim (find_column max widg.height w (drop w st.heights)) [
  | none ↦ some (st, false)
  | some k ↦ do st' ← place max k widg st; place_row max (suc w) row st'
]

-- Is every column higher than the row?
unfoldable pub full : ℕ → List ℤ → Bool
full max [] = true
full max (ch ∷ heights) = if leb_ℤ ch (pos max) then false else full max heights

-- The rows of `processing`; beside the columns, the rows that are put back.
unfoldable pub fill :
    ℕ → List (List WidgetRule) → Columns → Option (Columns × List (List WidgetRule))
unfolding place_row full
fill max [] st = some (st, [])
fill max (row ∷ rows) st = elim (full max st.heights) [
  | true ↦ some (st, row ∷ rows)
  | false ↦ do
    placed ← place_row max 0 row st
    if placed.1 then fill max rows placed.0 else some (placed.0, row ∷ rows)
]

-- `ui.NewCol(weight, widgets...)` for the columns that hold a widget.
pub record Column : Type 0 where
  pub weight : Weight
  pub items : List Placed

unfoldable pub ui_columns : List WidgetRule → List (List Placed) → List Column
ui_columns (rd ∷ rds) ([] ∷ cs) = ui_columns rds cs
ui_columns (rd ∷ rds) ((p ∷ ps) ∷ cs) =
    record { weight = rd.weight; items = p ∷ ps } ∷ ui_columns rds cs
ui_columns _ _ = []

pub record UiRow : Type 0 where
  pub height : ℕ
  pub columns : List Column

abbrev pub start : List WidgetRule → Columns
start first = record {
  items = replicate (length first) [];
  heights = replicate (if ltb (length first) 1 then 1 else length first) (pos 0);
}

-- The height of the first row, as `countMaxHeight` gives it for that row alone.
abbrev pub row_height : List WidgetRule → ℕ
row_height first = pos_part (count_max_height (first ∷ []))

-- `processing` and what is then left in `rowDefs`.
abbrev pub processing : ℕ → List (List WidgetRule) → List (List WidgetRule)
processing max rows = if ltb max (length rows) then take max rows else rows

abbrev pub left_over : ℕ → List (List WidgetRule) → List (List WidgetRule)
left_over max rows = if ltb max (length rows) then drop max rows else []

unfoldable pub process_row : List (List WidgetRule) → Option (UiRow × List (List WidgetRule))
unfolding fill ui_columns count_max_height
process_row [] = some (record { height = 0; columns = [] }, [])
process_row (first ∷ rest) = do
  let max = row_height first
  filled ← fill max (processing max (first ∷ rest)) (start first)
  some (
    record { height = max; columns = ui_columns first filled.0.items },
    filled.1 ++ left_over max (first ∷ rest),
  )

-- The loop of `Layout` over the row definitions; `none` also says that the fuel ran out.
unfoldable pub layout_rows : ℕ → List (List WidgetRule) → Option (List UiRow)
layout_rows fuel [] = some []
layout_rows zero (row ∷ rows) = none
layout_rows (suc fuel) (row ∷ rows) = elim (process_row (row ∷ rows)) [
  | none ↦ none
  | some done ↦ do more ← layout_rows fuel done.1; some (done.0 ∷ more)
]
