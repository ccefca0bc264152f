-- ===== src/EventLoop/Keys.antt =====
-- When the event loop of cmd/gotop/main.go starts a command.
use gotop.Prelude.{
  ℤ, Bool, true, false, not, List, [], ◌∷◌, ◌++◌, Option, none, some, if◌then◌else◌, map, Bytes,
  codes, beq, beq_iff, ◌≡◌, ◌⊎◌, refl, ◌∙◌, inl, inr, arith,
}
use gotop.Widgets.Proc.{Proc, ProcWidget, Platform, Command, handle_event, kill_proc}
use gotop.EventLoop.{
  Key, Payload, UiEvent, App, Effect, Turn, Input, key_of, painted, on_proc, on_proc_of, killed,
  kill_in, bad_click, main_key, help_switch, finish, second, on_resize, first, unless_handled,
  on_event_of, on_event, turn, act, rendered, all_drawn, resize, resize_effects,
}

-- The commands that a turn starts.
abbrev pub commands : List Effect → List Command
commands [] = []
commands (Effect.run c ∷ es) = c ∷ commands es
commands (Effect.render_grid ∷ es) = commands es
commands (Effect.render_bar ∷ es) = commands es
commands (Effect.render_proc ∷ es) = commands es
commands (Effect.render_help ∷ es) = commands es
commands (Effect.render_line ∷ es) = commands es
commands (Effect.clear ∷ es) = commands es
commands (Effect.resize_bar x y ∷ es) = commands es
commands (Effect.resize_help x y ∷ es) = commands es

-- What a turn may have done before its command, if it starts one.
module _ {F : Type 0} where
  -- No command is started, or the last key was "d" and the help is hidden.
  abbrev pub Guarded : App F → List Effect → Type 0
  Guarded app es =
      (commands es ≡ []) ⊎ ((app.previous_key ≡ codes "d") × (app.help_visible ≡ false))

  abbrev pub GuardedTurn : App F → Turn F → Type 0
  GuardedTurn app Turn.returned = Unit
  GuardedTurn app Turn.panicked = Unit
  GuardedTurn app (Turn.goes_on app' es) = Guarded app es

module _ {F : Type 0} (sys : Platform F) (paint : ℤ × ℤ → ProcWidget F → ProcWidget F) where
  -- No command, or the last key was "d".
  abbrev AfterD : App F → Option (App F × List Effect) → Type 0
  AfterD app none = Unit
  AfterD app (some r) = (commands r.1 ≡ []) ⊎ (app.previous_key ≡ codes "d")

  on_proc-AfterD :
      (o : Option (ProcWidget F)) (app : App F) (f : ProcWidget F → ProcWidget F)
      → AfterD app (some (on_proc_of sys paint o app f))
  on_proc-AfterD none app f = inl refl
  on_proc-AfterD (some w) app f = inl refl

  bad_click-AfterD :
      (o : Option (ProcWidget F)) (app : App F) → AfterD app (bad_click sys paint o app)
  bad_click-AfterD none app = inl refl
  bad_click-AfterD (some w) app = tt

  kill_in-AfterD :
      (o : Option (ProcWidget F)) (sig_name : Bytes) (app : App F)
      → AfterD app (kill_in sys paint o sig_name app)
  kill_in-AfterD none sig_name app = inl refl
  kill_in-AfterD (some w) sig_name app = by_key (beq app.previous_key (codes "d")) refl
    where
      last :
          (r : Option (Command × ProcWidget F))
          → app.previous_key ≡ codes "d"
          → AfterD app (killed sys paint app r)
      last none e = tt
      last (some r) e = inr e

      by_key :
          (b : Bool)
          → beq app.previous_key (codes "d") ≡ b
          → AfterD app
              (if b then killed sys paint app (kill_proc sys sig_name w) else some (app, []))
      by_key true e = last (kill_proc sys sig_name w) ((beq_iff app.previous_key (codes "d")).0 e)
      by_key false e = inl refl

  either :
      (app : App F) (b : Bool) (r q : Option (App F × List Effect))
      → AfterD app r
      → AfterD app q
      → AfterD app (if b then r else q)
  either app true r q hr hq = hr
  either app false r q hr hq = hq

  commands-map : (ls : List ℤ) → commands (map (λ _. Effect.render_line) ls) ≡ []
  commands-map [] = refl
  commands-map (l ∷ ls) = commands-map ls

  resize_key_quiet :
      (b : Bool)
      → commands
          (if b then Effect.render_grid ∷ Effect.render_bar ∷ [] else Effect.render_grid ∷ [])
        ≡ []
  resize_key_quiet true = refl
  resize_key_quiet false = refl

  main_key-AfterD :
      (k : Key) (pay : Payload) (app : App F) → AfterD app (main_key sys paint k pay app)
  unfolding main_key
  main_key-AfterD Key.quit_key pay app = inl refl
  main_key-AfterD Key.help_key pay app = inl refl
  main_key-AfterD Key.resize_key pay app = inl (resize_key_quiet app.statusbar)
  main_key-AfterD Key.escape_key pay app = inl refl
  main_key-AfterD Key.zoom_out pay app = inl refl
  main_key-AfterD Key.zoom_in pay app =
      either app _ (some (_, map (λ _. Effect.render_line) app.lines)) (some (app, []))
        (inl (commands-map app.lines)) (inl refl)
  main_key-AfterD Key.bits pay app = inl refl
  main_key-AfterD Key.mouse_left Payload.nothing app = bad_click-AfterD app.proc app
  main_key-AfterD Key.mouse_left (Payload.resized x y) app = bad_click-AfterD app.proc app
  main_key-AfterD Key.mouse_left (Payload.moused x y) app = on_proc-AfterD app.proc app _
  main_key-AfterD Key.g_key pay app =
      either app (beq app.previous_key (codes "g")) (some (on_proc sys paint app _))
        (some (app, [])) (on_proc-AfterD app.proc app _) (inl refl)
  main_key-AfterD Key.kill_term pay app = kill_in-AfterD app.proc _ app
  main_key-AfterD Key.kill_quit pay app = kill_in-AfterD app.proc _ app
  main_key-AfterD Key.kill_kill pay app = kill_in-AfterD app.proc _ app
  main_key-AfterD Key.tab pay app = on_proc-AfterD app.proc app _
  main_key-AfterD Key.slash pay app = on_proc-AfterD app.proc app _
  main_key-AfterD Key.other pay app = inl refl
  main_key-AfterD (Key.motion m) pay app = on_proc-AfterD app.proc app _
  main_key-AfterD (Key.sort_key m) pay app = on_proc-AfterD app.proc app _

  help_switch_quiet : (k : Key) (app : App F) → commands (help_switch sys paint k app).1 ≡ []
  unfolding help_switch
  help_switch_quiet Key.quit_key app = refl
  help_switch_quiet Key.help_key app = refl
  help_switch_quiet Key.resize_key app = refl
  help_switch_quiet Key.escape_key app = refl
  help_switch_quiet Key.zoom_out app = refl
  help_switch_quiet Key.zoom_in app = refl
  help_switch_quiet Key.bits app = refl
  help_switch_quiet Key.mouse_left app = refl
  help_switch_quiet Key.g_key app = refl
  help_switch_quiet Key.kill_term app = refl
  help_switch_quiet Key.kill_quit app = refl
  help_switch_quiet Key.kill_kill app = refl
  help_switch_quiet Key.tab app = refl
  help_switch_quiet Key.slash app = refl
  help_switch_quiet Key.other app = refl
  help_switch_quiet (Key.motion m) app = refl
  help_switch_quiet (Key.sort_key m) app = refl

  commands-append : (es fs : List Effect) → commands es ≡ [] → commands (es ++ fs) ≡ commands fs
  commands-append [] fs h = refl
  commands-append (Effect.run c ∷ es) fs h = absurd (ground arith)
  commands-append (Effect.render_grid ∷ es) fs h = commands-append es fs h
  commands-append (Effect.render_bar ∷ es) fs h = commands-append es fs h
  commands-append (Effect.render_proc ∷ es) fs h = commands-append es fs h
  commands-append (Effect.render_help ∷ es) fs h = commands-append es fs h
  commands-append (Effect.render_line ∷ es) fs h = commands-append es fs h
  commands-append (Effect.clear ∷ es) fs h = commands-append es fs h
  commands-append (Effect.resize_bar x y ∷ es) fs h = commands-append es fs h
  commands-append (Effect.resize_help x y ∷ es) fs h = commands-append es fs h

  -- A turn after a state with the help hidden, or with no command.
  finish-Guarded :
      (e : UiEvent) (before : List Effect) (app : App F) (r : Option (App F × List Effect))
      → commands before ≡ []
      → app.help_visible ≡ false
      → AfterD app r
      → GuardedTurn app (finish sys paint e before r)
  finish-Guarded e before app none hb hidden h = tt
  finish-Guarded e before app (some r) hb hidden (inl quiet) =
      inl (commands-append before r.1 hb ∙ quiet)
  finish-Guarded e before app (some r) hb hidden (inr d) = inr (d, hidden)

  second-Guarded :
      (k : Key) (e : UiEvent) (before : List Effect) (app : App F)
      → commands before ≡ []
      → GuardedTurn app (second sys paint k e before app)
  unfolding second
  second-Guarded k e before app hb = by_help app.help_visible refl
    where
      by_help :
          (b : Bool)
          → app.help_visible ≡ b
          → GuardedTurn app (
              if b
              then Turn.goes_on
                  (help_switch sys paint k app).0
                  (before ++ (help_switch sys paint k app).1)
              else finish sys paint e before (main_key sys paint k e.payload app))
      by_help true h =
          inl (commands-append before (help_switch sys paint k app).1 hb ∙ help_switch_quiet k app)
      by_help false h =
          finish-Guarded e before app (main_key sys paint k e.payload app) hb h
            (main_key-AfterD k e.payload app)

  resize_effects_quiet :
      (width height : ℤ) (b : Bool) → commands (resize_effects sys paint width height b) ≡ []
  resize_effects_quiet width height true = refl
  resize_effects_quiet width height false = refl

  on_resize-Guarded :
      (pay : Payload) (e : UiEvent) (app : App F) → GuardedTurn app (on_resize sys paint pay e app)
  unfolding on_resize
  on_resize-Guarded Payload.nothing e app = tt
  on_resize-Guarded (Payload.moused x y) e app = tt
  on_resize-Guarded (Payload.resized x y) e app = resized_turn _ (
      second-Guarded Key.resize_key e _ (resize sys paint x y app)
        (resize_effects_quiet x y app.statusbar))
    where
      resized_turn : (t : Turn F) → GuardedTurn (resize sys paint x y app) t → GuardedTurn app t
      resized_turn Turn.returned h = tt
      resized_turn Turn.panicked h = tt
      resized_turn (Turn.goes_on app' es) h = h

  help-Guarded :
      (e : UiEvent) (app : App F)
      → GuardedTurn app
          (second sys paint Key.help_key e [] (record app { help_visible = not app.help_visible }))
  unfolding second main_key help_switch
  help-Guarded e app = by_help (not app.help_visible)
    where
      by_help :
          (b : Bool)
          → GuardedTurn app (
              if b
              then Turn.goes_on
                  (record app { help_visible = not app.help_visible })
                  (Effect.clear ∷ Effect.render_help ∷ [])
              else finish sys paint e [] (
                  some (
                    painted sys paint (record app { help_visible = not app.help_visible }),
                    Effect.render_grid ∷ [],
                  )))
      by_help true = inl refl
      by_help false = inl refl

  first-Guarded : (k : Key) (e : UiEvent) (app : App F) → GuardedTurn app (first sys paint k e app)
  unfolding first
  first-Guarded Key.quit_key e app = tt
  first-Guarded Key.help_key e app = help-Guarded e app
  first-Guarded Key.resize_key e app = on_resize-Guarded e.payload e app
  first-Guarded Key.escape_key e app = second-Guarded Key.escape_key e [] app refl
  first-Guarded Key.zoom_out e app = second-Guarded Key.zoom_out e [] app refl
  first-Guarded Key.zoom_in e app = second-Guarded Key.zoom_in e [] app refl
  first-Guarded Key.bits e app = second-Guarded Key.bits e [] app refl
  first-Guarded Key.mouse_left e app = second-Guarded Key.mouse_left e [] app refl
  first-Guarded Key.g_key e app = second-Guarded Key.g_key e [] app refl
  first-Guarded Key.kill_term e app = second-Guarded Key.kill_term e [] app refl
  first-Guarded Key.kill_quit e app = second-Guarded Key.kill_quit e [] app refl
  first-Guarded Key.kill_kill e app = second-Guarded Key.kill_kill e [] app refl
  first-Guarded Key.tab e app = second-Guarded Key.tab e [] app refl
  first-Guarded Key.slash e app = second-Guarded Key.slash e [] app refl
  first-Guarded Key.other e app = second-Guarded Key.other e [] app refl
  first-Guarded (Key.motion m) e app = second-Guarded (Key.motion m) e [] app refl
  first-Guarded (Key.sort_key m) e app = second-Guarded (Key.sort_key m) e [] app refl

  unless_handled-Guarded :
      (r : Bool × ProcWidget F) (e : UiEvent) (app : App F)
      → GuardedTurn app (unless_handled sys paint r e app)
  unless_handled-Guarded (true, w) e app = inl refl
  unless_handled-Guarded (false, w) e app = first-Guarded (key_of e.id) e app

  on_event-Guarded :
      (o : Option (ProcWidget F)) (e : UiEvent) (procs : Option (List (Proc F))) (app : App F)
      → GuardedTurn app (on_event_of sys paint o e procs app)
  on_event-Guarded none e procs app = first-Guarded (key_of e.id) e app
  on_event-Guarded (some w) e procs app =
      unless_handled-Guarded (handle_event sys procs e.id w) e app

  act-Guarded : (i : Input F) (app : App F) → GuardedTurn app (act sys paint i app)
  unfolding act on_event
  act-Guarded Input.sig_term app = tt
  act-Guarded Input.draw_tick app =
      by_help app.help_visible
        (if app.statusbar
          then Effect.render_grid ∷ Effect.render_bar ∷ []
          else Effect.render_grid ∷ [])
        (resize_key_quiet app.statusbar)
    where
      by_help :
          (b : Bool) (es : List Effect)
          → commands es ≡ []
          → GuardedTurn app
              (if b then Turn.goes_on app [] else Turn.goes_on (painted sys paint app) es)
      by_help true es h = inl refl
      by_help false es h = inl h
  act-Guarded (Input.ui_event e procs) app = on_event-Guarded app.proc e procs app

  -- A turn of the loop starts a command only if the key that was kept from the turns before is
  -- "d" and the help is hidden.
  pub turn-Guarded :
      (draws : Effect → Bool) (i : Input F) (app : App F)
      → GuardedTurn app (turn sys paint draws i app)
  unfolding turn
  turn-Guarded draws i app = drawn (act sys paint i app) (act-Guarded i app)
    where
      by_drawing :
          (b : Bool) (app' : App F) (es : List Effect)
          → GuardedTurn app (Turn.goes_on app' es)
          → GuardedTurn app (if b then Turn.goes_on app' es else Turn.panicked)
      by_drawing true app' es h = h
      by_drawing false app' es h = tt

      drawn : (t : Turn F) → GuardedTurn app t → GuardedTurn app (rendered draws t)
      drawn Turn.returned h = tt
      drawn Turn.panicked h = tt
      drawn (Turn.goes_on app' es) h = by_drawing (all_drawn draws es) app' es h
