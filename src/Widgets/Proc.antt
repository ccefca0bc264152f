-- ===== src/Widgets/Proc.antt =====
-- `ProcWidget` of widgets/proc.go: the process list, its filter, its grouping, its sorting and the
-- command that kills a process. `float64`, the sort of Go's library, the order in which Go walks a
-- map, and the translations are parameters. A text is a list of runes, a pid or a count an integer
-- without wrap-around. What `getProcs` returns is an argument; `none` is its error.
pub mod Group
pub mod Rows
pub mod Kill
pub mod New
pub mod Ps
mod Tests
use gotop.Prelude.{
  ℕ, ℤ, pos, negsuc, ◌+ℤ◌, ltb_ℤ, Bool, true, false, not, ◌||◌, List, [], ◌∷◌, ◌++◌, Option, none,
  some, ◌>>=◌, if◌then◌else◌, ◌==◌, map, get_elem?, Bytes, codes, beq, itoa,
}
use gotop.Prelude.Maps.{Map, lookup, insert}
use gotop.Prelude.Strings.{contains, to_lower, less, is_nil}
use gotop.Termui.Table.{
  Table, scroll_up, scroll_down, scroll_top, scroll_bottom, scroll_half_page_up,
  scroll_half_page_down, scroll_page_up, scroll_page_down, handle_click,
}
use gotop.Termui.Entry.{Entry, Handled, ignored, kept, updated, set_editing}
use gotop.Termui.Entry as Entry

-- `ProcSortMethod`
pub data SortMethod : Type 0 where
  cpu mem pid cmd : SortMethod

abbrev pub is_same : SortMethod → SortMethod → Bool
is_same SortMethod.cpu SortMethod.cpu = true
is_same SortMethod.mem SortMethod.mem = true
is_same SortMethod.pid SortMethod.pid = true
is_same SortMethod.cmd SortMethod.cmd = true
is_same _ _ = false

pub record Proc (F : Type 0) : Type 0 where
  pub pid : ℤ
  pub command_name : Bytes
  pub full_command : Bytes
  pub cpu : F
  pub mem : F

-- What the code uses of `float64`, of `sort.Sort`, of the order of a map and of the translations.
pub record Platform (F : Type 0) : Type 0 where
  pub plus : F → F → F
  pub over : F → ℤ → F
  pub below : F → F → Bool
  -- `fmt.Sprintf("%4s", strconv.FormatFloat(x, 'f', 1, 64))`
  pub print : F → Bytes
  -- `sort.Sort` of a slice whose `Less` compares two elements
  pub sort : (Proc F → Proc F → Bool) → List (Proc F) → List (Proc F)
  -- the order in which `range` walks the values of a map
  pub walk : List (Proc F) → List (Proc F)
  pub tr : Bytes → Bytes

pub record ProcWidget (F : Type 0) : Type 0 where
  pub table : Table
  pub entry : Entry
  pub cpu_count : ℤ
  pub sort_method : SortMethod
  pub filter : Bytes
  pub grouped_procs : List (Proc F)
  pub ungrouped_procs : List (Proc F)
  pub show_grouped_procs : Bool

-- `exec.Command(command, args...)`
pub record Command : Type 0 where
  pub command : Bytes
  pub args : List Bytes

module _ {F : Type 0} (sys : Platform F) where
  unfoldable pub is_match : Bytes → Proc F → Bool
  is_match filter p = contains p.full_command filter || contains (itoa p.pid) filter

  abbrev matching : Bytes → List (Proc F) → List (Proc F)
  matching filter [] = []
  matching filter (p ∷ ps) =
      let rest = matching filter ps in if is_match filter p then p ∷ rest else rest

  unfoldable pub filter_procs : Bytes → List (Proc F) → List (Proc F)
  filter_procs filter ps = if is_nil filter then ps else matching filter ps

  -- The entry of a command in the map, with one more process.
  abbrev pub count_in : Option (Proc F) → Proc F → Proc F
  count_in (some val) p = record {
    pid = val.pid +ℤ pos 1;
    command_name = val.command_name;
    full_command = [];
    cpu = sys.plus val.cpu p.cpu;
    mem = sys.plus val.mem p.mem;
  }
  count_in none p = record {
    pid = pos 1;
    command_name = p.command_name;
    full_command = [];
    cpu = p.cpu;
    mem = p.mem;
  }

  unfoldable pub group_map : List (Proc F) → Map (Proc F) → Map (Proc F)
  group_map [] m = m
  group_map (p ∷ ps) m =
      group_map ps (insert p.command_name (count_in (lookup p.command_name m) p) m)

  unfoldable pub group_procs : List (Proc F) → List (Proc F)
  unfolding group_map
  group_procs ps = sys.walk (map (λ e. e.1) (group_map ps []))

  -- `Less` of the four sort types
  abbrev pub less_cpu : Proc F → Proc F → Bool
  less_cpu p q = sys.below p.cpu q.cpu

  abbrev pub less_mem : Proc F → Proc F → Bool
  less_mem p q = sys.below p.mem q.mem

  abbrev pub less_pid : Proc F → Proc F → Bool
  less_pid p q = ltb_ℤ p.pid q.pid

  abbrev pub less_cmd : Proc F → Proc F → Bool
  less_cmd p q = less (to_lower q.command_name) (to_lower p.command_name)

  -- `sort.Reverse`
  abbrev pub reverse : (Proc F → Proc F → Bool) → Proc F → Proc F → Bool
  reverse lt p q = lt q p

  -- The order of the switch in `sortProcs`.
  unfoldable pub order_of : SortMethod → Bool → Proc F → Proc F → Bool
  order_of SortMethod.cpu grouped = reverse less_cpu
  order_of SortMethod.mem grouped = reverse less_mem
  order_of SortMethod.pid grouped = if grouped then reverse less_pid else less_pid
  order_of SortMethod.cmd grouped = reverse less_cmd

  -- "▼"
  abbrev arrow : Bytes
  arrow = 9660 ∷ []

  unfoldable pub header_of : SortMethod → Bool → List Bytes
  header_of method grouped =
      let first =
        sys.tr
          (if grouped then codes "widget.proc.header.count" else codes "widget.proc.header.pid") in
      let command = sys.tr (codes "widget.proc.header.command") in
      let cpu = sys.tr (codes "widget.proc.header.cpu") in
      let mem = sys.tr (codes "widget.proc.header.mem") in
      elim method [
        | SortMethod.cpu ↦ first ∷ command ∷ (cpu ++ arrow) ∷ mem ∷ []
        | SortMethod.mem ↦ first ∷ command ∷ cpu ∷ (mem ++ arrow) ∷ []
        | SortMethod.pid ↦ (first ++ arrow) ∷ command ∷ cpu ∷ mem ∷ []
        | SortMethod.cmd ↦ first ∷ (command ++ arrow) ∷ cpu ∷ mem ∷ []
      ]

  -- The list that is shown.
  abbrev pub shown : ProcWidget F → List (Proc F)
  shown w = if w.show_grouped_procs then w.grouped_procs else w.ungrouped_procs

  unfoldable pub sort_procs : ProcWidget F → ProcWidget F
  unfolding header_of
  sort_procs w =
      let sorted = sys.sort (order_of w.sort_method w.show_grouped_procs) (shown w) in
      record w {
        table = record w.table { header = header_of w.sort_method w.show_grouped_procs };
        grouped_procs = if w.show_grouped_procs then sorted else w.grouped_procs;
        ungrouped_procs = if w.show_grouped_procs then w.ungrouped_procs else sorted;
      }

  abbrev pub row_of : Bool → Proc F → List Bytes
  row_of grouped p =
      itoa p.pid
      ∷ (if grouped then p.command_name else p.full_command)
      ∷ sys.print p.cpu
      ∷ sys.print p.mem
      ∷ []

  unfoldable pub convert_procs_to_table_rows : ProcWidget F → ProcWidget F
  convert_procs_to_table_rows w = record w {
    table = record w.table { rows = map (row_of w.show_grouped_procs) (shown w) };
  }

  abbrev pub refresh : ProcWidget F → ProcWidget F
  refresh w = convert_procs_to_table_rows (sort_procs w)

  abbrev pub per_cpu : ℤ → Proc F → Proc F
  per_cpu n p = record p { cpu = sys.over p.cpu n }

  unfoldable pub update : Option (List (Proc F)) → ProcWidget F → ProcWidget F
  update none w = w
  update (some procs) w =
      let procs = filter_procs w.filter (map (per_cpu w.cpu_count) procs) in
      refresh (record w { ungrouped_procs = procs; grouped_procs = group_procs procs })

  unfoldable pub change_proc_sort_method : SortMethod → ProcWidget F → ProcWidget F
  change_proc_sort_method method w =
      if is_same w.sort_method method
      then w
      else refresh (record w { sort_method = method; table = scroll_top w.table })

  unfoldable pub toggle_showing_grouped_procs : ProcWidget F → ProcWidget F
  toggle_showing_grouped_procs w =
      let grouped = not w.show_grouped_procs in
      refresh (record w {
        show_grouped_procs = grouped;
        table = scroll_top (record w.table { unique_col = if grouped then 1 else 0 });
      })

  -- An index out of range panics.
  abbrev pub row_at : ℤ → List (List Bytes) → Option (List Bytes)
  row_at (pos n) rows = get_elem? rows n
  row_at (negsuc n) rows = none

  unfoldable pub kill_proc : Bytes → ProcWidget F → Option (Command × ProcWidget F)
  kill_proc sig_name w = do
    row ← row_at w.table.selected_row w.table.rows
    target ← get_elem? row w.table.unique_col
    some (
      record {
        command = if w.table.unique_col == 1 then codes "pkill" else codes "kill";
        args = codes "--signal" ∷ sig_name ∷ target ∷ [];
      },
      record w { table = record w.table { selected_item = [] } },
    )

  unfoldable pub set_editing_filter : Bool → ProcWidget F → ProcWidget F
  set_editing_filter editing w = record w { entry = set_editing editing w.entry }

  -- The entry's callback sets the filter and updates.
  abbrev pub respond : Option (List (Proc F)) → Handled → ProcWidget F → Bool × ProcWidget F
  respond procs ignored w = (false, w)
  respond procs (kept e) w = (true, record w { entry = e })
  respond procs (updated e) w = (true, update procs (record w { entry = e; filter = e.value }))

  unfoldable pub handle_event : Option (List (Proc F)) → Bytes → ProcWidget F → Bool × ProcWidget F
  handle_event procs id w = respond procs (Entry.handle_event id w.entry) w
