-- ===== src/EventLoop/Scale.antt =====
-- The scale of the graphs in the event loop of cmd/gotop/main.go.
use gotop.Prelude.{
  ℤ, pos, ◌-ℤ◌, ◌+ℤ◌, ◌-◌, ◌^◌, ◌+◌, pos_part, wrap_int, wrap_int_fits, subst, sym, ap, ◌∙◌, arith,
  ◌≤ℤ◌, ltb_ℤ, int_laws, Bool, true, false, List, [], ◌∷◌, ◌++◌, Option, none, some, if◌then◌else◌,
  map, All, Bytes, codes, beq, ◌≡◌, refl, inl, inr, Bool-cases,
}
use gotop.Widgets.Proc.{Proc, ProcWidget, Platform, Command, handle_event, kill_proc}
use gotop.EventLoop.{
  Key, Payload, UiEvent, App, Effect, Turn, Input, key_of, painted, on_proc, on_proc_of, killed,
  kill_in, bad_click, main_key, help_switch, finish, second, on_resize, first, unless_handled,
  on_event_of, on_event, turn, act, rendered, all_drawn,
}

-- The scale is positive, and every graph has it.
pub record Scaled {F : Type 0} (app : App F) : Type 0 where
  pub positive : pos 1 ≤ℤ app.scale
  pub same : All (λ l. l ≡ app.scale) app.lines

-- The greatest scale that can grow by 3.
abbrev pub largest : ℤ
largest = pos (2 ^ 63 - 4)

grows : (n : ℤ) → pos 1 ≤ℤ n → n ≤ℤ largest → pos 1 ≤ℤ wrap_int (n +ℤ pos 3)
grows n one small = subst (λ z. pos 1 ≤ℤ z) (sym (wrapped ∙ more)) (omega arith)
  where
    wrapped : wrap_int (n +ℤ pos 3) ≡ wrap_int (pos (pos_part n + 3))
    wrapped = ap wrap_int (grind (int_laws, one))

    more : wrap_int (pos (pos_part n + 3)) ≡ pos (pos_part n + 3)
    more = wrap_int_fits (pos_part n + 3) (grind (int_laws, one, small))

module _ {F : Type 0} (sys : Platform F) (paint : ℤ × ℤ → ProcWidget F → ProcWidget F) where
  -- What holds of the state that a turn leaves, if the loop goes on.
  abbrev pub Leaves : (App F → Type 0) → Turn F → Type 0
  Leaves P Turn.returned = Unit
  Leaves P Turn.panicked = Unit
  Leaves P (Turn.goes_on app es) = P app

  abbrev LeavesSome : Option (App F × List Effect) → Type 0
  LeavesSome none = Unit
  LeavesSome (some r) = Scaled r.0

  all_same : (n : ℤ) (ls : List ℤ) → All (λ l. l ≡ n) (map (λ _. n) ls)
  all_same n [] = tt
  all_same n (l ∷ ls) = (refl, all_same n ls)

  on_proc-Scaled :
      (o : Option (ProcWidget F)) (app : App F) (f : ProcWidget F → ProcWidget F)
      → Scaled app
      → Scaled (on_proc_of sys paint o app f).0
  on_proc-Scaled none app f s = s
  on_proc-Scaled (some w) app f s = record { positive = s.positive; same = s.same }

  either :
      (b : Bool) (r q : Option (App F × List Effect))
      → LeavesSome r
      → LeavesSome q
      → LeavesSome (if b then r else q)
  either true r q hr hq = hr
  either false r q hr hq = hq

  killed-Scaled :
      (app : App F) (r : Option (Command × ProcWidget F))
      → Scaled app
      → LeavesSome (killed sys paint app r)
  killed-Scaled app none s = tt
  killed-Scaled app (some r) s = record { positive = s.positive; same = s.same }

  bad_click-Scaled :
      (o : Option (ProcWidget F)) (app : App F)
      → Scaled app
      → LeavesSome (bad_click sys paint o app)
  bad_click-Scaled none app s = s
  bad_click-Scaled (some w) app s = tt

  kill_in-Scaled :
      (o : Option (ProcWidget F)) (sig_name : Bytes) (app : App F)
      → Scaled app
      → LeavesSome (kill_in sys paint o sig_name app)
  kill_in-Scaled none sig_name app s = s
  kill_in-Scaled (some w) sig_name app s =
      either (beq app.previous_key (codes "d")) _ (some (app, []))
        (killed-Scaled app (kill_proc sys sig_name w) s) s

  room : (n : ℤ) → ltb_ℤ (pos 3) n ≡ true → pos 1 ≤ℤ n -ℤ pos 3
  room n e = grind int_laws

  main_key-Scaled :
      (k : Key) (pay : Payload) (app : App F)
      → Scaled app
      → app.scale ≤ℤ largest
      → LeavesSome (main_key sys paint k pay app)
  unfolding main_key
  main_key-Scaled Key.quit_key pay app s small = s
  main_key-Scaled Key.help_key pay app s small = record { positive = s.positive; same = s.same }
  main_key-Scaled Key.resize_key pay app s small = record { positive = s.positive; same = s.same }
  main_key-Scaled Key.escape_key pay app s small = s
  main_key-Scaled Key.zoom_out pay app s small = record {
    positive = grows app.scale s.positive small;
    same = all_same _ app.lines;
  }
  main_key-Scaled Key.zoom_in pay app s small = elim (Bool-cases (ltb_ℤ (pos 3) app.scale)) [
    | inl e ↦ rw e (record { positive = room app.scale e; same = all_same _ app.lines })
    | inr e ↦ rw e s
  ]
  main_key-Scaled Key.bits pay app s small = record { positive = s.positive; same = s.same }
  main_key-Scaled Key.mouse_left Payload.nothing app s small = bad_click-Scaled app.proc app s
  main_key-Scaled Key.mouse_left (Payload.resized x y) app s small = bad_click-Scaled app.proc app s
  main_key-Scaled Key.mouse_left (Payload.moused x y) app s small = on_proc-Scaled app.proc app _ s
  main_key-Scaled Key.g_key pay app s small =
      either (beq app.previous_key (codes "g")) (some (on_proc sys paint app _)) (some (app, []))
        (on_proc-Scaled app.proc app _ s) s
  main_key-Scaled Key.kill_term pay app s small = kill_in-Scaled app.proc _ app s
  main_key-Scaled Key.kill_quit pay app s small = kill_in-Scaled app.proc _ app s
  main_key-Scaled Key.kill_kill pay app s small = kill_in-Scaled app.proc _ app s
  main_key-Scaled Key.tab pay app s small = on_proc-Scaled app.proc app _ s
  main_key-Scaled Key.slash pay app s small = on_proc-Scaled app.proc app _ s
  main_key-Scaled Key.other pay app s small = s
  main_key-Scaled (Key.motion m) pay app s small = on_proc-Scaled app.proc app _ s
  main_key-Scaled (Key.sort_key m) pay app s small = on_proc-Scaled app.proc app _ s

  help_switch-Scaled : (k : Key) (app : App F) → Scaled app → Scaled (help_switch sys paint k app).0
  unfolding help_switch
  help_switch-Scaled Key.quit_key app s = s
  help_switch-Scaled Key.help_key app s = s
  help_switch-Scaled Key.resize_key app s = s
  help_switch-Scaled Key.escape_key app s = record { positive = s.positive; same = s.same }
  help_switch-Scaled Key.zoom_out app s = s
  help_switch-Scaled Key.zoom_in app s = s
  help_switch-Scaled Key.bits app s = s
  help_switch-Scaled Key.mouse_left app s = s
  help_switch-Scaled Key.g_key app s = s
  help_switch-Scaled Key.kill_term app s = s
  help_switch-Scaled Key.kill_quit app s = s
  help_switch-Scaled Key.kill_kill app s = s
  help_switch-Scaled Key.tab app s = s
  help_switch-Scaled Key.slash app s = s
  help_switch-Scaled Key.other app s = s
  help_switch-Scaled (Key.motion m) app s = s
  help_switch-Scaled (Key.sort_key m) app s = s

  finish-Scaled :
      (e : UiEvent) (before : List Effect) (r : Option (App F × List Effect))
      → LeavesSome r
      → Leaves Scaled (finish sys paint e before r)
  finish-Scaled e before none h = tt
  finish-Scaled e before (some r) h = record { positive = h.positive; same = h.same }

  either_turn :
      (b : Bool) (t u : Turn F)
      → Leaves Scaled t
      → Leaves Scaled u
      → Leaves Scaled (if b then t else u)
  either_turn true t u ht hu = ht
  either_turn false t u ht hu = hu

  second-Scaled :
      (k : Key) (e : UiEvent) (before : List Effect) (app : App F)
      → Scaled app
      → app.scale ≤ℤ largest
      → Leaves Scaled (second sys paint k e before app)
  unfolding second
  second-Scaled k e before app s small =
      either_turn app.help_visible
        (Turn.goes_on (help_switch sys paint k app).0 (before ++ (help_switch sys paint k app).1))
        (finish sys paint e before (main_key sys paint k e.payload app))
        (help_switch-Scaled k app s)
        (finish-Scaled e before (main_key sys paint k e.payload app)
          (main_key-Scaled k e.payload app s small))

  on_resize-Scaled :
      (pay : Payload) (e : UiEvent) (app : App F)
      → Scaled app
      → app.scale ≤ℤ largest
      → Leaves Scaled (on_resize sys paint pay e app)
  unfolding on_resize
  on_resize-Scaled Payload.nothing e app s small = tt
  on_resize-Scaled (Payload.moused x y) e app s small = tt
  on_resize-Scaled (Payload.resized x y) e app s small =
      second-Scaled Key.resize_key e _ _ (record { positive = s.positive; same = s.same }) small

  first-Scaled :
      (k : Key) (e : UiEvent) (app : App F)
      → Scaled app
      → app.scale ≤ℤ largest
      → Leaves Scaled (first sys paint k e app)
  unfolding first
  first-Scaled Key.quit_key e app s small = tt
  first-Scaled Key.help_key e app s small =
      second-Scaled Key.help_key e [] _ (record { positive = s.positive; same = s.same }) small
  first-Scaled Key.resize_key e app s small = on_resize-Scaled e.payload e app s small
  first-Scaled Key.escape_key e app s small = second-Scaled Key.escape_key e [] app s small
  first-Scaled Key.zoom_out e app s small = second-Scaled Key.zoom_out e [] app s small
  first-Scaled Key.zoom_in e app s small = second-Scaled Key.zoom_in e [] app s small
  first-Scaled Key.bits e app s small = second-Scaled Key.bits e [] app s small
  first-Scaled Key.mouse_left e app s small = second-Scaled Key.mouse_left e [] app s small
  first-Scaled Key.g_key e app s small = second-Scaled Key.g_key e [] app s small
  first-Scaled Key.kill_term e app s small = second-Scaled Key.kill_term e [] app s small
  first-Scaled Key.kill_quit e app s small = second-Scaled Key.kill_quit e [] app s small
  first-Scaled Key.kill_kill e app s small = second-Scaled Key.kill_kill e [] app s small
  first-Scaled Key.tab e app s small = second-Scaled Key.tab e [] app s small
  first-Scaled Key.slash e app s small = second-Scaled Key.slash e [] app s small
  first-Scaled Key.other e app s small = second-Scaled Key.other e [] app s small
  first-Scaled (Key.motion m) e app s small = second-Scaled (Key.motion m) e [] app s small
  first-Scaled (Key.sort_key m) e app s small = second-Scaled (Key.sort_key m) e [] app s small

  unless_handled-Scaled :
      (r : Bool × ProcWidget F) (e : UiEvent) (app : App F)
      → Scaled app
      → app.scale ≤ℤ largest
      → Leaves Scaled (unless_handled sys paint r e app)
  unless_handled-Scaled (true, w) e app s small = record { positive = s.positive; same = s.same }
  unless_handled-Scaled (false, w) e app s small = first-Scaled (key_of e.id) e app s small

  on_event-Scaled :
      (o : Option (ProcWidget F)) (e : UiEvent) (procs : Option (List (Proc F))) (app : App F)
      → Scaled app
      → app.scale ≤ℤ largest
      → Leaves Scaled (on_event_of sys paint o e procs app)
  on_event-Scaled none e procs app s small = first-Scaled (key_of e.id) e app s small
  on_event-Scaled (some w) e procs app s small =
      unless_handled-Scaled (handle_event sys procs e.id w) e app s small

  act-Scaled :
      (i : Input F) (app : App F)
      → Scaled app
      → app.scale ≤ℤ largest
      → Leaves Scaled (act sys paint i app)
  unfolding act on_event
  act-Scaled Input.sig_term app s small = tt
  act-Scaled Input.draw_tick app s small =
      either_turn app.help_visible (Turn.goes_on app []) (Turn.goes_on (painted sys paint app) _) s
        (record { positive = s.positive; same = s.same })
  act-Scaled (Input.ui_event e procs) app s small = on_event-Scaled app.proc e procs app s small

  -- If the scale of the graphs is positive and every graph has it, then so it is after each turn
  -- of the loop after which the loop goes on, unless the scale is so large that 3 more are no `int`.
  pub turn-Scaled :
      (draws : Effect → Bool) (i : Input F) (app : App F)
      → Scaled app
      → app.scale ≤ℤ largest
      → Leaves Scaled (turn sys paint draws i app)
  unfolding turn
  turn-Scaled draws i app s small = drawn (act sys paint i app) (act-Scaled i app s small)
    where
      drawn : (t : Turn F) → Leaves Scaled t → Leaves Scaled (rendered draws t)
      drawn Turn.returned h = tt
      drawn Turn.panicked h = tt
      drawn (Turn.goes_on app' es) h =
          either_turn (all_drawn draws es) (Turn.goes_on app' es) Turn.panicked h tt
