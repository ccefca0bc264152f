-- ===== src/Widgets/Proc/Rows.antt =====
-- The rows of the process list: they are those of the list that is shown, whatever is done to it.
use gotop.Prelude.{
  ℤ, pos, ◌+ℤ◌, ◌-ℤ◌, Bool, true, false, List, [], Option, bind-eq-some, subst, get_elem?, none,
  some, if◌then◌else◌, map, Bytes, ◌≡◌, refl, ◌∙◌, inl, inr, Bool-cases,
}
use gotop.Termui.Table.{
  Table, move_to, calc_pos, scroll_up, scroll_down, scroll_top, scroll_bottom, scroll_half_page_up,
  scroll_half_page_down, scroll_page_up, scroll_page_down, handle_click,
}
use gotop.Termui.Geometry.{Rect}
use gotop.Termui.Table.Draw.Rows.{SameRows, draw-SameRows}
use gotop.Termui.Table.Draw.{Write, draw}
use gotop.Termui.Entry.{Entry, Handled, ignored, kept, updated}
use gotop.Termui.Entry as Entry
use gotop.Widgets.Proc.{
  Proc, ProcWidget, Platform, SortMethod, Command, kill_proc, row_at, is_same, shown, row_of,
  sort_procs, convert_procs_to_table_rows, refresh, update, change_proc_sort_method,
  toggle_showing_grouped_procs, set_editing_filter, respond, handle_event,
}

-- The methods of the table that a key or a click calls.
pub data Motion : Type 0 where
  up down top bottom half_up half_down page_up page_down : Motion
  click : ℤ → ℤ → Motion

unfoldable pub move : Motion → Table → Table
move Motion.up t = scroll_up t
move Motion.down t = scroll_down t
move Motion.top t = scroll_top t
move Motion.bottom t = scroll_bottom t
move Motion.half_up t = scroll_half_page_up t
move Motion.half_down t = scroll_half_page_down t
move Motion.page_up t = scroll_page_up t
move Motion.page_down t = scroll_page_down t
move (Motion.click x y) t = handle_click x y t

move_to-SameRows : (row : ℤ) (t : Table) → SameRows (move_to row t) t
unfolding calc_pos
move_to-SameRows row t = record { rows = refl; column = refl }

pub move-SameRows : (m : Motion) (t : Table) → SameRows (move m t) t
unfolding move scroll_up scroll_down scroll_top scroll_bottom scroll_half_page_up
    scroll_half_page_down scroll_page_up scroll_page_down handle_click calc_pos
move-SameRows Motion.up t = record { rows = refl; column = refl }
move-SameRows Motion.down t = record { rows = refl; column = refl }
move-SameRows Motion.top t = record { rows = refl; column = refl }
move-SameRows Motion.bottom t = record { rows = refl; column = refl }
move-SameRows Motion.half_up t = record { rows = refl; column = refl }
move-SameRows Motion.half_down t = record { rows = refl; column = refl }
move-SameRows Motion.page_up t = record { rows = refl; column = refl }
move-SameRows Motion.page_down t = record { rows = refl; column = refl }
move-SameRows (Motion.click x y) t =
    let row = (t.top_row +ℤ (y -ℤ t.outer.min_y)) -ℤ pos 2 in
    either _ (move_to row t) t (move_to-SameRows row t)
  where
    either : (b : Bool) (u t : Table) → SameRows u t → SameRows (if b then u else t) t
    either true u t h = h
    either false u t h = record { rows = refl; column = refl }

module _ {F : Type 0} (sys : Platform F) where
  pub record Consistent (w : ProcWidget F) : Type 0 where
    pub rows : w.table.rows ≡ map (row_of sys w.show_grouped_procs) (shown sys w)
    pub column : w.table.unique_col ≡ (if w.show_grouped_procs then 1 else 0)

  -- What happens to the widget: the ticker, the keys of the main loop, the motions, the keys typed
  -- into the filter and the start of its editing. The ticker and a typed key fetch the processes.
  pub data Event : Type 0 where
    tick : Option (List (Proc F)) → Event
    typed : Option (List (Proc F)) → Bytes → Event
    sort_by : SortMethod → Event
    toggle : Event
    motion : Motion → Event
    edit_filter : Bool → Event

  unfoldable pub react : Event → ProcWidget F → ProcWidget F
  react (tick procs) w = update sys procs w
  react (typed procs id) w = (handle_event sys procs id w).1
  react (sort_by m) w = change_proc_sort_method sys m w
  react toggle w = toggle_showing_grouped_procs sys w
  react (motion m) w = record w { table = move m w.table }
  react (edit_filter on) w = set_editing_filter sys on w

  -- The states that events lead to, with `KillProc`, and `Draw` in rectangles of any size.
  pub data Reachable (start : ProcWidget F) : ProcWidget F → Type 0 where
    begin : Reachable start start
    next : {w : ProcWidget F} (e : Event) → Reachable start w → Reachable start (react e w)
    after_kill :
        {w w' : ProcWidget F} {cmd : Command} (sig_name : Bytes)
        → Reachable start w
        → kill_proc sys sig_name w ≡ some (cmd, w')
        → Reachable start w'
    after_draw :
        {w : ProcWidget F} {t : Table} {ws : List Write} (trim : Bytes → ℤ → Bytes)
        (outer inner : Rect)
        → Reachable start w
        → draw trim (record w.table { outer = outer; inner = inner }) ≡ some (t, ws)
        → Reachable start (record w { table = t })

  refresh-Consistent :
      (w : ProcWidget F)
      → w.table.unique_col ≡ (if w.show_grouped_procs then 1 else 0)
      → Consistent (refresh sys w)
  unfolding sort_procs convert_procs_to_table_rows
  refresh-Consistent w h = record { rows = refl; column = h }

  pub update-Consistent :
      (procs : Option (List (Proc F))) (w : ProcWidget F)
      → Consistent w
      → Consistent (update sys procs w)
  unfolding update
  update-Consistent none w c = c
  update-Consistent (some procs) w c = refresh-Consistent _ c.column

  respond-Consistent :
      (procs : Option (List (Proc F))) (h : Handled) (w : ProcWidget F)
      → Consistent w
      → Consistent (respond sys procs h w).1
  respond-Consistent procs ignored w c = c
  respond-Consistent procs (kept e) w c = record { rows = c.rows; column = c.column }
  respond-Consistent procs (updated e) w c =
      update-Consistent procs _ (record { rows = c.rows; column = c.column })

  react-Consistent : (e : Event) (w : ProcWidget F) → Consistent w → Consistent (react e w)
  unfolding react change_proc_sort_method toggle_showing_grouped_procs set_editing_filter
      handle_event scroll_top calc_pos
  react-Consistent (tick procs) w c = update-Consistent procs w c
  react-Consistent (typed procs id) w c =
      respond-Consistent procs (Entry.handle_event id w.entry) w c
  react-Consistent (sort_by m) w c = elim (Bool-cases (is_same w.sort_method m)) [
    | inl e ↦ rw e c
    | inr e ↦ rw e (refresh-Consistent _ c.column)
  ]
  react-Consistent toggle w c = refresh-Consistent _ refl
  react-Consistent (motion m) w c = record {
    rows = (move-SameRows m w.table).rows ∙ c.rows;
    column = (move-SameRows m w.table).column ∙ c.column;
  }
  react-Consistent (edit_filter on) w c = record { rows = c.rows; column = c.column }

  kill_proc-Consistent :
      (sig_name : Bytes) (w : ProcWidget F) {cmd : Command} {w' : ProcWidget F}
      → kill_proc sys sig_name w ≡ some (cmd, w')
      → Consistent w
      → Consistent w'
  unfolding kill_proc
  kill_proc-Consistent sig_name w {cmd} {w'} e c =
      let (row, _, later) = bind-eq-some (row_at sys w.table.selected_row w.table.rows) _ e in
      let (target, _, final) = bind-eq-some (get_elem? row w.table.unique_col) _ later in
      let after : record w { table = record w.table { selected_item = [] } } ≡ w' = cc in
      subst Consistent after (record { rows = c.rows; column = c.column })

  -- The rows of the table are those of the list that is shown, and the column that tells them
  -- apart is the command of a group or the pid of a process: this holds in every state that events,
  -- `KillProc` and `Draw` lead to from a state in which it holds.
  pub Reachable-Consistent :
      (start w : ProcWidget F) → Consistent start → Reachable start w → Consistent w
  Reachable-Consistent start w c begin = c
  Reachable-Consistent start w c (next {w = v} e r) =
      react-Consistent e v (Reachable-Consistent start v c r)
  Reachable-Consistent start w c (after_kill {w = v} {cmd = cmd} sig_name r e) =
      kill_proc-Consistent sig_name v e (Reachable-Consistent start v c r)
  Reachable-Consistent start w c (after_draw {w = v} {t = t} trim outer inner r e) =
      let same = draw-SameRows trim (record v.table { outer = outer; inner = inner }) e in
      let before = Reachable-Consistent start v c r in
      record { rows = same.rows ∙ before.rows; column = same.column ∙ before.column }
