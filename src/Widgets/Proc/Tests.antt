-- ===== src/Widgets/Proc/Tests.antt =====
-- Runs of the process list, with whole numbers for `float64` and an insertion sort.
use gotop.Prelude.{
  ℕ, ℤ, pos, negsuc, ◌+◌, ◌+ℤ◌, ◌/◌, Bool, true, false, List, [], ◌∷◌, ◌++◌, some, if◌then◌else◌,
  map, ltb, length, Bytes, codes, beq, itoa, ◌≡◌, refl,
}
use gotop.Prelude.Maps.{lookup, insert}
use gotop.Termui.Table.{Table}
use gotop.Prelude.{atoi_value}
use gotop.Prelude.Strings.{trim_space}
use gotop.Widgets.Proc.Ps.{proc_of_line}
use gotop.Widgets.Proc.Ps.Columns.{Columns, line_of_columns, proc_of_line-columns}
use gotop.Widgets.Proc.{
  Proc, ProcWidget, Platform, SortMethod, group_map, group_procs, filter_procs, sort_procs,
  order_of, convert_procs_to_table_rows, update, kill_proc, shown, row_of,
}
use gotop.Widgets.Proc.Group.{
  of_command, group_of, lookup-group_map-group_of, total, total-group_map,
}
use gotop.Widgets.Proc.Rows.{Consistent, Event, Reachable, react, Motion, Reachable-Consistent}
use gotop.Widgets.Proc.Kill.{kill_proc-command_for}

abbrev put : (Proc ℕ → Proc ℕ → Bool) → Proc ℕ → List (Proc ℕ) → List (Proc ℕ)
put lt p [] = p ∷ []
put lt p (q ∷ qs) = let rest = put lt p qs in if lt q p then q ∷ rest else p ∷ q ∷ qs

abbrev insertion_sort : (Proc ℕ → Proc ℕ → Bool) → List (Proc ℕ) → List (Proc ℕ)
insertion_sort lt [] = []
insertion_sort lt (p ∷ ps) = put lt p (insertion_sort lt ps)

abbrev share : ℕ → ℤ → ℕ
share x (pos n) = x / n
share x (negsuc n) = x

abbrev pub sys : Platform ℕ
sys = record {
  plus = λ a b. a + b;
  over = share;
  below = λ a b. ltb a b;
  print = λ x. itoa (pos x);
  sort = insertion_sort;
  walk = λ ps. ps;
  tr = λ s. s;
}

abbrev proc : ℕ → Bytes → ℕ → Proc ℕ
proc n name share_of = record {
  pid = pos n;
  command_name = name;
  full_command = codes "/bin/" ++ name;
  cpu = share_of;
  mem = 1;
}

abbrev procs : List (Proc ℕ)
procs = proc 10 (codes "sh") 4 ∷ proc 11 (codes "vi") 30 ∷ proc 12 (codes "sh") 8 ∷ []

abbrev empty_table : Table
empty_table = record {
  outer = record { min_x = pos 0; min_y = pos 0; max_x = pos 40; max_y = pos 12 };
  inner = record { min_x = pos 1; min_y = pos 1; max_x = pos 39; max_y = pos 11 };
  header = [];
  rows = [];
  col_widths = pos 5 ∷ pos 10 ∷ pos 4 ∷ pos 4 ∷ [];
  col_gap = pos 3;
  pad_left = pos 2;
  show_cursor = true;
  cursor_color = 4;
  show_location = true;
  unique_col = 1;
  selected_item = [];
  selected_row = pos 0;
  top_row = pos 0;
  col_resizer = λ w ws. ws;
}

abbrev pub start : ProcWidget ℕ
start = record {
  table = empty_table;
  entry = record { label = codes "Filter: "; value = []; show_when_empty = false; editing = false };
  cpu_count = pos 2;
  sort_method = SortMethod.cpu;
  filter = [];
  grouped_procs = [];
  ungrouped_procs = [];
  show_grouped_procs = true;
}

start-Consistent : Consistent sys start
start-Consistent = record { rows = refl; column = refl }

abbrev ticked : ProcWidget ℕ
ticked = update sys (some procs) start

grouped_commands : map (λ p. p.command_name) (shown sys ticked) ≡ codes "vi" ∷ codes "sh" ∷ []
unfolding update group_procs sort_procs convert_procs_to_table_rows order_of filter_procs lookup
    insert beq
grouped_commands = refl

lookup-group_map-group_of_example :
    lookup (codes "sh") (group_map sys procs []) ≡ group_of sys (of_command sys (codes "sh") procs)
lookup-group_map-group_of_example = lookup-group_map-group_of sys (codes "sh") procs

total-group_map_example : total sys (group_map sys procs []) ≡ total sys [] +ℤ pos (length procs)
total-group_map_example = total-group_map sys procs []

abbrev listed : ProcWidget ℕ
listed =
    react sys (Event.motion Motion.down)
      (react sys Event.toggle (react sys (Event.tick (some procs)) start))

listed-Reachable : Reachable sys start listed
listed-Reachable =
    Reachable.next (Event.motion Motion.down)
      (Reachable.next Event.toggle (Reachable.next (Event.tick (some procs)) Reachable.begin))

-- After KillProc there is no selected item.
abbrev unselected : ProcWidget ℕ
unselected = record listed { table = record listed.table { selected_item = [] } }

kills_listed :
    kill_proc sys (codes "SIGTERM") listed
    ≡ some (
      record {
        command = codes "kill";
        args = codes "--signal" ∷ codes "SIGTERM" ∷ codes "12" ∷ [];
      },
      unselected,
    )
unfolding react update gotop.Widgets.Proc.toggle_showing_grouped_procs group_procs sort_procs
    convert_procs_to_table_rows order_of filter_procs lookup insert beq kill_proc itoa
    gotop.Widgets.Proc.Rows.move gotop.Termui.Table.scroll_down gotop.Termui.Table.calc_pos
    gotop.Prelude.◌-ℤ◌ ◌+ℤ◌ gotop.Termui.Table.scroll_top
kills_listed = refl

Reachable-Consistent_example : Consistent sys unselected
Reachable-Consistent_example =
    Reachable-Consistent sys start unselected start-Consistent
      (Reachable.after_kill (codes "SIGTERM") listed-Reachable kills_listed)

-- The processes, not grouped, with the cursor on the third.
abbrev on_third : ProcWidget ℕ
on_third = record start {
  show_grouped_procs = false;
  ungrouped_procs = procs;
  table = record empty_table {
    rows = map (row_of sys false) procs;
    unique_col = 0;
    selected_row = pos 2;
  };
}

kill_proc-command_for_example :
    kill_proc sys (codes "SIGTERM") on_third
    ≡ some (
      record {
        command = codes "kill";
        args = codes "--signal" ∷ codes "SIGTERM" ∷ itoa (pos 12) ∷ [];
      },
      record on_third { table = record on_third.table { selected_item = [] } },
    )
kill_proc-command_for_example =
    kill_proc-command_for sys (codes "SIGTERM") on_third 2 (proc 12 (codes "sh") 8)
      (record { rows = refl; column = refl }) refl refl

-- After a tick has sorted the rows anew, the row of the cursor holds another process than the one
-- that was selected when the table was drawn, and it is that one that is killed.
abbrev drawn : ProcWidget ℕ
drawn = record on_third { table = record on_third.table { selected_item = codes "12" } }

kill_after_tick :
    kill_proc sys (codes "SIGTERM") (update sys (some procs) drawn)
    ≡ some (
      record {
        command = codes "kill";
        args = codes "--signal" ∷ codes "SIGTERM" ∷ codes "10" ∷ [];
      },
      record (update sys (some procs) drawn) {
        table = record (update sys (some procs) drawn).table { selected_item = [] };
      },
    )
unfolding update group_procs sort_procs convert_procs_to_table_rows order_of filter_procs lookup
    insert beq kill_proc itoa
kill_after_tick = refl

-- A line of ps, with a long name.
abbrev ps_line : Columns
ps_line = record {
  pid = codes "      4711";
  gap = codes " ";
  comm = codes "chrome-sandbox-with-a-name-of-fifty-letters-000000";
  gap2 = codes "  ";
  cpu = codes " 12.5";
  gap3 = codes " ";
  mem = codes "  3.0";
  args = codes " /opt/chrome --type=x";
}

proc_of_line-columns_example :
    proc_of_line length (line_of_columns ps_line)
    ≡ some (record {
      pid = atoi_value (trim_space ps_line.pid);
      command_name = trim_space ps_line.comm;
      full_command = ps_line.args;
      cpu = length (trim_space ps_line.cpu);
      mem = length (trim_space ps_line.mem);
    })
proc_of_line-columns_example =
    proc_of_line-columns ps_line
      (record {
        pid_width = refl;
        gap_width = refl;
        comm_width = refl;
        gap2_width = refl;
        cpu_width = refl;
        gap3_width = refl;
        mem_width = refl;
      })
      length
