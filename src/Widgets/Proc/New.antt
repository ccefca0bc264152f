-- ===== src/Widgets/Proc/New.antt =====
-- `NewProcWidget` of widgets/proc.go. The rectangles of termui's new block, the number of
-- processors and what `getProcs` returns at first are arguments.
use gotop.Prelude.{ℤ, pos, ◌-ℤ◌, true, false, [], ◌∷◌, List, Option, none, some, codes, ◌≡◌, refl}
use gotop.Utils.{max_int}
use gotop.Termui.Geometry.{Rect}
use gotop.Widgets.Proc.{Proc, ProcWidget, Platform, SortMethod, update}
use gotop.Widgets.Proc.Rows.{Consistent, update-Consistent}

-- `ColResizer`, of the width of the inner rectangle.
abbrev pub resize_columns : ℤ → List ℤ → List ℤ
resize_columns width old = pos 5 ∷ max_int (width -ℤ pos 26) (pos 10) ∷ pos 4 ∷ pos 4 ∷ []

module _ {F : Type 0} (sys : Platform F) (outer inner : Rect) where
  -- Before its first update.
  unfoldable pub empty_widget : ℤ → ProcWidget F
  empty_widget cpu_count = record {
    table = record {
      outer = outer;
      inner = inner;
      header = [];
      rows = [];
      col_widths = [];
      col_gap = pos 3;
      pad_left = pos 2;
      show_cursor = true;
      cursor_color = 0;
      show_location = true;
      unique_col = 1;
      selected_item = [];
      selected_row = pos 0;
      top_row = pos 0;
      col_resizer = resize_columns;
    };
    entry = record {
      label = sys.tr (codes "widget.proc.filter");
      value = [];
      show_when_empty = false;
      editing = false;
    };
    cpu_count = cpu_count;
    sort_method = SortMethod.cpu;
    filter = [];
    grouped_procs = [];
    ungrouped_procs = [];
    show_grouped_procs = true;
  }

  unfoldable pub new_proc_widget : ℤ → Option (List (Proc F)) → ProcWidget F
  unfolding empty_widget
  new_proc_widget cpu_count procs = update sys procs (empty_widget cpu_count)

  -- The new process list is consistent, and its filter is not edited.
  pub new_proc_widget-Consistent :
      (cpu_count : ℤ) (procs : Option (List (Proc F)))
      → Consistent sys (new_proc_widget cpu_count procs)
  unfolding new_proc_widget
  new_proc_widget-Consistent cpu_count procs =
      update-Consistent sys procs (empty_widget cpu_count) (record { rows = refl; column = refl })

  pub new_proc_widget_idle :
      (cpu_count : ℤ) (procs : Option (List (Proc F)))
      → (new_proc_widget cpu_count procs).entry.editing ≡ false
  unfolding new_proc_widget update gotop.Widgets.Proc.convert_procs_to_table_rows
      gotop.Widgets.Proc.sort_procs
  new_proc_widget_idle cpu_count none = refl
  new_proc_widget_idle cpu_count (some procs) = refl
