-- ===== src/Layout/Widgets.antt =====
-- `makeWidget`, `assignColors`, `deepFindWidget`, `deepFindScalable` and the end of `Layout` in
-- layout/layout.go. A widget is what it was made with; the series of a graph at its start, in the
-- order in which Go walks them, and the sort of texts are parameters. A `GridItem` holds a widget
-- or a slice, and `slices` is a `[][]interface{}`. A share of a row or a column is kept in `UiRow`. `none` is an index out of range.

pub mod Find
pub mod Grid
pub mod Named
pub mod Total
mod Tests
use gotop.Prelude.{
  ℕ, zero, suc, ℤ, pos, ◌+ℤ◌, wrap_int, Bool, true, false, not, List, [], ◌∷◌, ◌++◌, Option, none,
  some, ◌>>=◌, if◌then◌else◌, leb, length, get_elem?, Bytes, codes, beq,
}
use gotop.Prelude.Maps.{Map, insert}
use gotop.Prelude.Strings.{is_nil}
use gotop.Config.{Config}
use gotop.Layout.Parser.{WidgetRule}
use gotop.Layout.Rows.{Placed, Column, UiRow, layout_rows}

-- The fields of colorschemes/template.go that the layout reads.
pub record Colorscheme : Type 0 where
  pub border_label : ℤ
  pub cpu_lines : List ℤ
  pub batt_lines : List ℤ
  pub mem_lines : List ℤ
  pub proc_cursor : ℤ
  pub sparklines : ℤ × ℤ
  pub temp_low : ℤ
  pub temp_high : ℤ

-- A widget with the arguments of its constructor and the fields that are set then.
pub data Widget : Type 0 where
  disk block : Widget
  cpu : ℤ → ℤ → Bool → Bool → Map ℤ → Widget
  mem : ℤ → ℤ → Map ℤ → Widget
  batt : ℤ → Map ℤ → Widget
  temp : ℕ → List Bytes → ℤ → ℤ → Widget
  net : Bytes → ℤ × ℤ → ℤ → Bool → Widget
  procs power : ℤ → Widget

-- `exported` says that `EnableMetric` was called.
pub record Made : Type 0 where
  pub widget : Widget
  pub exported : Bool

-- The loop of `assignColors`, from the colour `i` on.
unfoldable pub assign_from : ℕ → List Bytes → List ℤ → Map ℤ → Option (Map ℤ)
assign_from i [] colors assign = some assign
assign_from i (v ∷ keys) colors assign =
    let j = if leb (length colors) i then 0 else i in
    do c ← get_elem? colors j; assign_from (suc j) keys colors (insert v c assign)

abbrev pub exporting : Config Colorscheme → Widget → Option Made
exporting c w = some (record { widget = w; exported = not (is_nil c.export_port) })

abbrev pub colored : Config Colorscheme → Option (Map ℤ) → (Map ℤ → Widget) → Option Made
colored c none w = none
colored c (some colors) w = exporting c (w colors)

-- The cases of the switch.
pub data Name : Type 0 where
  disk_name cpu_name mem_name batt_name temp_name net_name procs_name power_name unknown : Name

unfoldable pub name_of_widget : Bytes → Name
name_of_widget s =
    if beq s (codes "disk")
    then disk_name
    else if beq s (codes "cpu")
    then cpu_name
    else if beq s (codes "mem")
    then mem_name
    else if beq s (codes "batt")
    then batt_name
    else if beq s (codes "temp")
    then temp_name
    else if beq s (codes "net")
    then net_name
    else if beq s (codes "procs")
    then procs_name
    else if beq s (codes "power")
    then power_name
    else unknown

module _ (sort : List Bytes → List Bytes) (series : Name → List Bytes)
    (c : Config Colorscheme) where
  unfoldable pub assign_colors : Name → List ℤ → Option (Map ℤ)
  unfolding assign_from
  assign_colors name colors = assign_from 0 (sort (series name)) colors []

  unfoldable pub make_named : Name → Option Made
  unfolding assign_colors
  make_named disk_name = exporting c disk
  make_named cpu_name =
      colored c (assign_colors cpu_name c.colorscheme.cpu_lines)
        (cpu c.update_interval c.graph_horizontal_scale c.average_load c.percpu_load)
  make_named mem_name =
      colored c (assign_colors mem_name c.colorscheme.mem_lines)
        (mem c.update_interval c.graph_horizontal_scale)
  make_named batt_name =
      colored c (assign_colors batt_name c.colorscheme.batt_lines) (batt c.graph_horizontal_scale)
  make_named temp_name =
      exporting c (temp c.temp_scale c.temps c.colorscheme.temp_low c.colorscheme.temp_high)
  make_named net_name =
      exporting c (net c.net_interface c.colorscheme.sparklines c.colorscheme.border_label c.mbps)
  make_named procs_name = exporting c (procs c.colorscheme.proc_cursor)
  make_named power_name = exporting c (power c.colorscheme.proc_cursor)
  make_named unknown = some (record { widget = block; exported = false })

  unfoldable pub make_widget : WidgetRule → Option Made
  unfolding make_named name_of_widget
  make_widget rule = make_named (name_of_widget rule.widget)

-- What an `interface{}` of the grid can be.
mutual
  pub data Tree (A : Type 0) : Type 0 where
    leaf : A → Tree A
    grid_item : Tree A → Tree A
    slice : Forest A → Tree A
    slices : Forest A → Tree A

  pub data Forest (A : Type 0) : Type 0 where
    nil : Forest A
    cons : Tree A → Forest A → Forest A

abbrev pub or_else : {B : Type 0} → Option B → Option B → Option B
or_else none o = o
or_else (some b) o = some b

-- `test` is for a widget; on a slice it returns nil.
unfoldable mutual
  pub deep_find_widget : {A B : Type 0} → (A → Option B) → Tree A → Option B
  deep_find_widget test (leaf a) = test a
  deep_find_widget test (grid_item t) = deep_find_widget test t
  deep_find_widget test (slice f) = deep_find_among test f
  deep_find_widget test (slices f) = deep_find_among test f

  pub deep_find_among : {A B : Type 0} → (A → Option B) → Forest A → Option B
  deep_find_among test nil = none
  deep_find_among test (cons t f) = or_else (deep_find_widget test t) (deep_find_among test f)

unfoldable mutual
  pub deep_find_scalable : {A : Type 0} → (A → Bool) → Tree A → List A
  deep_find_scalable scalable (leaf a) = if scalable a then a ∷ [] else []
  deep_find_scalable scalable (grid_item t) = deep_find_scalable scalable t
  deep_find_scalable scalable (slice f) = deep_find_scalables scalable f
  deep_find_scalable scalable (slices f) = []

  pub deep_find_scalables : {A : Type 0} → (A → Bool) → Forest A → List A
  deep_find_scalables scalable nil = []
  deep_find_scalables scalable (cons t f) =
      deep_find_scalable scalable t ++ deep_find_scalables scalable f

-- `widgets.Scalable`
abbrev pub is_scalable : Made → Bool
is_scalable m = elim m.widget [
  | cpu interval scale average percpu colors ↦ true
  | mem interval scale colors ↦ true
  | batt scale colors ↦ true
  | _ ↦ false
]

-- The tests that `Layout` passes on.
abbrev pub proc_test : Made → Option Made
proc_test m = elim m.widget [ procs cursor ↦ some m | _ ↦ none ]

abbrev pub net_test : Made → Option Made
net_test m = elim m.widget [ net iface colors label mbps ↦ some m | _ ↦ none ]

-- `rows`, `max_height` and `items` are what the grid of termui was set to: the rows with their
-- shares, the height that they are shares of, and their items.
pub record MyGrid : Type 0 where
  pub rows : List UiRow
  pub max_height : ℤ
  pub items : Forest Made
  pub lines : List Made
  pub proc : Option Made
  pub net : Option Made

-- `ui.NewRow(rh, ur...)`, which looks at the first of its items.
abbrev pub row_items : List (Forest Made) → Option (Forest Made)
row_items [] = some nil
row_items (nil ∷ rows) = none
row_items (cons t f ∷ rows) = do
  rest ← row_items rows
  some (cons (grid_item (slice (cons t f))) rest)

-- `uiRows`
abbrev pub ui_rows : List (Forest Made) → Forest Made
ui_rows [] = nil
ui_rows (f ∷ rows) = cons (slice f) (ui_rows rows)

-- `maxHeight`
abbrev pub total_height : ℤ → List UiRow → ℤ
total_height height [] = height
total_height height (u ∷ us) = total_height (wrap_int (height +ℤ pos u.height)) us

-- The fields of the grid, from the rows, `uiRows` and `rgs`.
unfoldable pub searched : List UiRow → List (Forest Made) → Forest Made → MyGrid
unfolding deep_find_widget deep_find_scalable
searched uis rows items = record {
  rows = uis;
  max_height = total_height (pos 0) uis;
  items = items;
  lines = deep_find_scalable is_scalable (slice items);
  proc = deep_find_widget proc_test (slices (ui_rows rows));
  net = deep_find_widget net_test (slices (ui_rows rows));
}

module _ (make : WidgetRule → Option Made) where
  unfoldable pub column_items : List Placed → Option (Forest Made)
  column_items [] = some nil
  column_items (p ∷ ps) = do
    m ← make p.rule
    rest ← column_items ps
    some (cons (grid_item (leaf m)) rest)

  unfoldable pub row_columns : List Column → Option (Forest Made)
  unfolding column_items
  row_columns [] = some nil
  row_columns (col ∷ cols) = do
    items ← column_items col.items
    rest ← row_columns cols
    some (cons (grid_item (slice items)) rest)

  unfoldable pub make_rows : List UiRow → Option (List (Forest Made))
  unfolding row_columns
  make_rows [] = some []
  make_rows (u ∷ us) = do row ← row_columns u.columns; rest ← make_rows us; some (row ∷ rest)

  unfoldable pub layout : List (List WidgetRule) → Option MyGrid
  unfolding make_rows layout_rows searched
  layout defs = do
    uis ← layout_rows (length defs) defs
    rows ← make_rows uis
    items ← row_items rows
    some (searched uis rows items)
