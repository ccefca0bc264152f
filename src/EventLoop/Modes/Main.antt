-- ===== src/EventLoop/Modes/Main.antt =====
-- The main switch of the event loop keeps the mode, but for the key that opens the filter.
use gotop.Prelude.{
  wrap_int, ℤ, pos, ◌+ℤ◌, ltb_ℤ, Bool, true, false, ◌>>=◌, List, [], ◌++◌, Option, none, some,
  if◌then◌else◌, map, Bytes, codes, beq, ◌≡◌, refl, sym, ap, ◌∙◌, arith,
}
use gotop.Termui.Entry.{Entry, Handled, ignored, kept, updated}
use gotop.Termui.Entry as Entry
use gotop.Widgets.Proc.{
  ProcWidget, Platform, Command, SortMethod, kill_proc, row_at, change_proc_sort_method,
  toggle_showing_grouped_procs, set_editing_filter, is_same, refresh, sort_procs,
  convert_procs_to_table_rows,
}
use gotop.Termui.Table.{scroll_top}
use gotop.EventLoop.{
  Key, Payload, UiEvent, App, Effect, Turn, painted, on_proc, on_proc_of, killed, kill_in,
  bad_click, main_key, help_switch, finish, second,
}
use gotop.EventLoop.Modes.{
  Mode, may_panic, is_helping, is_filtering, after_main, has_list, is_editing, Shows, Refines,
  After,
}

module _ {F : Type 0} (sys : Platform F) (paint : ℤ × ℤ → ProcWidget F → ProcWidget F)
    (keeps : (size : ℤ × ℤ) (w : ProcWidget F) → (paint size w).entry ≡ w.entry) where
  pub painted-Shows :
      (listed : Bool) (m : Mode) (app : App F)
      → Shows listed m app
      → Shows listed m (painted sys paint app)
  painted-Shows listed m app (l, h, e) = (list_of app.proc ∙ l, h, edit_of app.proc ∙ e)
    where
      list_of :
          (o : Option (ProcWidget F))
          → has_list (elim o [ none ↦ none | some w ↦ some (paint app.size w) ]) ≡ has_list o
      list_of none = refl
      list_of (some w) = refl

      edit_of :
          (o : Option (ProcWidget F))
          → is_editing (elim o [ none ↦ none | some w ↦ some (paint app.size w) ]) ≡ is_editing o
      edit_of none = refl
      edit_of (some w) = ap (λ (e : Entry). e.editing) (keeps app.size w)

  -- The process list is changed, and the filter edited as before.
  on_proc-Shows :
      (listed : Bool) (m : Mode) (app : App F) (f : ProcWidget F → ProcWidget F)
      → ((w : ProcWidget F) → (f w).entry ≡ w.entry)
      → Shows listed m app
      → Shows listed m (on_proc sys paint app f).0
  on_proc-Shows listed m app f kept_by shows = of_proc app.proc shows.0 shows.2
    where
      of_proc :
          (o : Option (ProcWidget F))
          → has_list o ≡ listed
          → is_editing o ≡ is_filtering m
          → Shows listed m (on_proc_of sys paint o app f).0
      of_proc none l e = shows
      of_proc (some w) l e =
          (l, shows.1, ap (λ (e : Entry). e.editing) (keeps app.size (f w) ∙ kept_by w) ∙ e)

  -- The filter is edited from now on.
  slash-Shows :
      (listed : Bool) (m : Mode) (app : App F)
      → is_helping m ≡ false
      → Shows listed m app
      → Shows listed
          (after_main listed Key.slash m)
          (on_proc sys paint app (set_editing_filter sys true)).0
  unfolding set_editing_filter Entry.set_editing
  slash-Shows listed m app hm shows = of_proc app.proc listed shows.0 refl
    where
      of_proc :
          (o : Option (ProcWidget F)) (b : Bool)
          → has_list o ≡ b
          → b ≡ listed
          → Shows b
              (after_main b Key.slash m)
              (on_proc_of sys paint o app (set_editing_filter sys true)).0
      of_proc none true l e = absurd (ground arith)
      of_proc none false l e = (shows.0 ∙ sym e, shows.1, shows.2)
      of_proc (some w) false l e = absurd (ground arith)
      of_proc (some w) true l e = (
        refl,
        shows.1 ∙ hm,
        ap (λ (e : Entry). e.editing) (keeps app.size (set_editing_filter sys true w)),
      )

  either :
      (p listed : Bool) (m : Mode) (b : Bool) (r q : Option (App F × List Effect))
      → After p listed m r
      → After p listed m q
      → After p listed m (if b then r else q)
  either p listed m true r q hr hq = hr
  either p listed m false r q hr hq = hq

  kill_in-Shows :
      (o : Option (ProcWidget F)) (sig_name : Bytes) (listed : Bool) (m : Mode) (app : App F)
      → app.proc ≡ o
      → Shows listed m app
      → After true listed m (kill_in sys paint o sig_name app)
  unfolding kill_proc
  kill_in-Shows none sig_name listed m app at shows = shows
  kill_in-Shows (some w) sig_name listed m app at (l, h, e) =
      either true listed m (beq app.previous_key (codes "d")) (killed sys paint app _) _
        (of_row (row_at sys w.table.selected_row w.table.rows) _ _ (λ t. refl)) (l, h, e)
    where
      of_target :
          (o : Option Bytes) (cmd : Bytes → Command × ProcWidget F)
          → ((t : Bytes) → (cmd t).1.entry ≡ w.entry)
          → After true listed m (killed sys paint app (o >>= λ t. some (cmd t)))
      of_target none cmd same = refl
      of_target (some t) cmd same = (
        ap has_list (sym at) ∙ l,
        h,
        ap (λ (e : Entry). e.editing) (same t) ∙ ap is_editing (sym at) ∙ e,
      )

      of_row :
          (o : Option (List Bytes)) (get : List Bytes → Option Bytes)
          (cmd : Bytes → Command × ProcWidget F)
          → ((t : Bytes) → (cmd t).1.entry ≡ w.entry)
          → After true listed m (killed sys paint app (o >>= λ row. get row >>= λ t. some (cmd t)))
      of_row none get cmd same = refl
      of_row (some row) get cmd same = of_target (get row) cmd same

  bad_click-Shows :
      (o : Option (ProcWidget F)) (listed : Bool) (m : Mode) (app : App F)
      → Shows listed m app
      → After true listed m (bad_click sys paint o app)
  bad_click-Shows none listed m app shows = shows
  bad_click-Shows (some w) listed m app shows = refl

  change_keeps :
      (method : SortMethod) (w : ProcWidget F)
      → (change_proc_sort_method sys method w).entry ≡ w.entry
  unfolding change_proc_sort_method convert_procs_to_table_rows sort_procs
  change_keeps method w = by_same (is_same w.sort_method method)
    where
      by_same :
          (b : Bool)
          → (if b
              then w
              else refresh sys
                  (record w { sort_method = method; table = scroll_top w.table })).entry
            ≡ w.entry
      by_same true = refl
      by_same false = refl

  toggle_keeps : (w : ProcWidget F) → (toggle_showing_grouped_procs sys w).entry ≡ w.entry
  unfolding toggle_showing_grouped_procs convert_procs_to_table_rows sort_procs
  toggle_keeps w = refl

  main_key-Shows :
      (k : Key) (pay : Payload) (listed : Bool) (m : Mode) (app : App F)
      → is_helping m ≡ false
      → Shows listed m app
      → After (may_panic k pay) listed (after_main listed k m) (main_key sys paint k pay app)
  unfolding main_key may_panic
  main_key-Shows Key.quit_key pay listed m app hm shows = shows
  main_key-Shows Key.help_key pay listed m app hm shows = painted-Shows listed m app shows
  main_key-Shows Key.resize_key (Payload.resized x y) listed m app hm shows =
      painted-Shows listed m app shows
  main_key-Shows Key.resize_key (Payload.moused x y) listed m app hm shows =
      painted-Shows listed m app shows
  main_key-Shows Key.resize_key Payload.nothing listed m app hm shows =
      painted-Shows listed m app shows
  main_key-Shows Key.escape_key pay listed m app hm shows = shows
  main_key-Shows Key.zoom_out pay listed m app hm shows =
      painted-Shows listed m
        (record app {
          scale = wrap_int (app.scale +ℤ pos 3);
          lines = map (λ _. wrap_int (app.scale +ℤ pos 3)) app.lines;
        })
        shows
  main_key-Shows Key.zoom_in pay listed m app hm shows =
      either false listed m (ltb_ℤ (pos 3) app.scale)
        (some (_, map (λ _. Effect.render_line) app.lines)) (some (app, [])) shows shows
  main_key-Shows Key.bits pay listed m app hm shows = shows
  main_key-Shows Key.mouse_left Payload.nothing listed m app hm shows =
      bad_click-Shows app.proc listed m app shows
  main_key-Shows Key.mouse_left (Payload.resized x y) listed m app hm shows =
      bad_click-Shows app.proc listed m app shows
  main_key-Shows Key.mouse_left (Payload.moused x y) listed m app hm shows =
      on_proc-Shows listed m app _ (λ w. refl) shows
  main_key-Shows Key.g_key pay listed m app hm shows =
      either false listed m (beq app.previous_key (codes "g")) (some (on_proc sys paint app _))
        (some (app, [])) (on_proc-Shows listed m app _ (λ w. refl) shows) shows
  main_key-Shows Key.kill_term pay listed m app hm shows =
      kill_in-Shows app.proc _ listed m app refl shows
  main_key-Shows Key.kill_quit pay listed m app hm shows =
      kill_in-Shows app.proc _ listed m app refl shows
  main_key-Shows Key.kill_kill pay listed m app hm shows =
      kill_in-Shows app.proc _ listed m app refl shows
  main_key-Shows Key.tab pay listed m app hm shows = on_proc-Shows listed m app _ toggle_keeps shows
  main_key-Shows Key.slash pay listed m app hm shows = slash-Shows listed m app hm shows
  main_key-Shows Key.other pay listed m app hm shows = shows
  main_key-Shows (Key.motion d) pay listed m app hm shows =
      on_proc-Shows listed m app _ (λ w. refl) shows
  main_key-Shows (Key.sort_key d) pay listed m app hm shows =
      on_proc-Shows listed m app _ (change_keeps d) shows

  finish-Shows :
      (p listed : Bool) (m : Mode) (e : UiEvent) (before : List Effect)
      (r : Option (App F × List Effect))
      → After p listed m r
      → Refines p listed (some m) (finish sys paint e before r)
  finish-Shows p listed m e before none h = h
  finish-Shows p listed m e before (some r) h = h

  -- The second switch while the help is hidden.
  pub second-Shows :
      (k : Key) (e : UiEvent) (before : List Effect) (listed : Bool) (m : Mode) (app : App F)
      → is_helping m ≡ false
      → Shows listed m app
      → Refines
          (may_panic k e.payload)
          listed
          (some (after_main listed k m))
          (second sys paint k e before app)
  unfolding second
  second-Shows k e before listed m app hm shows = by_help app.help_visible (shows.1 ∙ hm)
    where
      by_help :
          (b : Bool)
          → b ≡ false
          → Refines (may_panic k e.payload) listed (some (after_main listed k m)) (
              if b
              then Turn.goes_on
                  (help_switch sys paint k app).0
                  (before ++ (help_switch sys paint k app).1)
              else finish sys paint e before (main_key sys paint k e.payload app))
      by_help true h = absurd (ground arith)
      by_help false h =
          finish-Shows _ listed _ e before _ (main_key-Shows k e.payload listed m app hm shows)
