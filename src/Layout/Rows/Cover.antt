-- ===== src/Layout/Rows/Cover.antt =====
-- `Layout` shows every widget that the rows ask for.
use gotop.Prelude.{ℕ, suc, Bool, true, false, List, [], ◌∷◌, ◌++◌, some, length, All, ◌≡◌, ◌⊎◌}
use gotop.Layout.Parser.{WidgetRule}
use gotop.Layout.Rows.{Placed, Columns, Column, UiRow, place, place_row, fill}

-- The widget of rule `r` is among the items of a column.
abbrev pub InColumn : WidgetRule → List Placed → Type 0
InColumn r [] = ⊥
InColumn r (p ∷ ps) = (p.rule ≡ r) ⊎ InColumn r ps

abbrev pub InColumns : WidgetRule → List (List Placed) → Type 0
InColumns r [] = ⊥
InColumns r (c ∷ cs) = InColumn r c ⊎ InColumns r cs

-- What a step of the loop keeps: the widgets that the columns hold, and how many columns there are.
record Grows (cs cs' : List (List Placed)) : Type 0 where
  keeps : (r : WidgetRule) → InColumns r cs → InColumns r cs'
  columns : length cs' ≡ length cs

-- The row's widgets that were placed: all of them, if the loop went to its end.
abbrev RowShown : Bool → List WidgetRule → List (List Placed) → Type 0
RowShown true row cs = All (λ r. InColumns r cs) row
RowShown false row cs = Unit

-- One round of the loop over a row: it stops, or places the widget and goes on.
data Round (max w : ℕ) (widg : WidgetRule) (row : List WidgetRule) (st st' : Columns) (b : Bool)
    : Type 0 where
  stopped : st' ≡ st → b ≡ false → Round max w widg row st st' b
  went_on :
      (k : ℕ) (st1 : Columns)
      → place max k widg st ≡ some st1
      → place_row max (suc w) row st1 ≡ some (st', b)
      → Round max w widg row st st' b

-- The rows that a call of the loop over the rows has consumed, with all their widgets shown.
record Consumed (rows left : List (List WidgetRule)) (st st' : Columns) : Type 0 where
  taken : List (List WidgetRule)
  split : rows ≡ taken ++ left
  grows : Grows st.items st'.items
  shown : All (All (λ r. InColumns r st'.items)) taken

data FillRound (max : ℕ) (row : List WidgetRule) (rows left : List (List WidgetRule))
    (st st' : Columns) : Type 0 where
  at_end : Grows st.items st'.items → left ≡ row ∷ rows → FillRound max row rows left st st'
  went_on :
      (st1 : Columns)
      → place_row max 0 row st ≡ some (st1, true)
      → fill max rows st1 ≡ some (st', left)
      → FillRound max row rows left st st'

-- Rule `r` has its widget in a row of the grid, and in the grid.
abbrev pub InUiRow : WidgetRule → List Column → Type 0
InUiRow r [] = ⊥
InUiRow r (c ∷ cs) = InColumn r c.items ⊎ InUiRow r cs

abbrev pub InGrid : WidgetRule → List UiRow → Type 0
InGrid r [] = ⊥
InGrid r (u ∷ us) = InUiRow r u.columns ⊎ InGrid r us

-- What `processRow` takes off the rows, it shows.
record Shown (rows left : List (List WidgetRule)) (ui : UiRow) : Type 0 where
  taken : List (List WidgetRule)
  split : rows ≡ taken ++ left
  shown : All (All (λ r. InUiRow r ui.columns)) taken
