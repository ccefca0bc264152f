-- ===== src/EventLoop/Tests.antt =====
-- Runs of the event loop of cmd/gotop/main.go without a process list and with an empty one.
use gotop.Prelude.{
  ℕ, ℤ, pos, Bool, not, ◌||◌, true, false, List, [], ◌∷◌, ◌++◌, Option, none, some, Bytes, codes,
  beq, ◌≡◌, refl, arith,
}
use gotop.Termui.Entry.{Entry}
use gotop.Widgets.Proc.{ProcWidget, Platform, SortMethod, kill_proc, handle_event}
use gotop.EventLoop.{
  Payload, App, Effect, Turn, Input, turn, act, on_event, key_of, main_key, first, second,
  help_switch, event_loop,
}
use gotop.EventLoop.Scale.{Scaled, Leaves, turn-Scaled}
use gotop.EventLoop.Keys.{GuardedTurn, turn-Guarded}
use gotop.EventLoop.Modes.{Mode, Refines, mode_step, may_panic, draws_all}
use gotop.EventLoop.Modes.Turns.{turn-mode_step}
use gotop.EventLoop.Quit.{leave, event_loop-leave}
use gotop.EventLoop.Filter.{filtered_by, turn_typed}

abbrev sys : Platform ℕ
sys = record {
  plus = λ a b. a;
  over = λ a n. a;
  below = λ a b. false;
  print = λ x. [];
  sort = λ lt ps. ps;
  walk = λ ps. ps;
  tr = λ s. s;
}

abbrev paint : ℤ × ℤ → ProcWidget ℕ → ProcWidget ℕ
paint size w = w

abbrev widget : ProcWidget ℕ
widget = record {
  table = record {
    outer = record { min_x = pos 0; min_y = pos 0; max_x = pos 40; max_y = pos 12 };
    inner = record { min_x = pos 1; min_y = pos 1; max_x = pos 39; max_y = pos 11 };
    header = [];
    rows = (codes "1" ∷ codes "init" ∷ codes "0.0" ∷ codes "0.0" ∷ []) ∷ [];
    col_widths = [];
    col_gap = pos 3;
    pad_left = pos 2;
    show_cursor = true;
    cursor_color = 4;
    show_location = true;
    unique_col = 1;
    selected_item = [];
    selected_row = pos 0;
    top_row = pos 0;
    col_resizer = λ w ws. ws;
  };
  entry = record {
    label = codes "Filter: ";
    value = codes "i";
    show_when_empty = false;
    editing = true;
  };
  cpu_count = pos 1;
  sort_method = SortMethod.cpu;
  filter = codes "i";
  grouped_procs = [];
  ungrouped_procs = [];
  show_grouped_procs = true;
}

abbrev app : App ℕ
app = record {
  help_visible = false;
  statusbar = true;
  scale = pos 7;
  previous_key = [];
  proc = some widget;
  net_mbps = some false;
  lines = pos 7 ∷ pos 7 ∷ [];
  size = (pos 80, pos 23);
}

-- Every rendering returns.
abbrev draws : Effect → Bool
draws e = true

-- No graph can be drawn.
abbrev narrow : Effect → Bool
narrow Effect.render_grid = false
narrow e = true

abbrev press : Bytes → Input ℕ
press id = Input.ui_event (record { id = id; payload = Payload.nothing }) none

turn-Scaled_example : Leaves sys paint Scaled (turn sys paint draws (press (codes "h")) app)
turn-Scaled_example =
    turn-Scaled sys paint draws (press (codes "h")) app
      (record { positive = omega arith; same = (refl, (refl, tt)) }) (omega arith)

turn-Guarded_example : GuardedTurn app (turn sys paint draws (press (codes "d")) app)
turn-Guarded_example = turn-Guarded sys paint draws (press (codes "d")) app

turn_typed_example :
    turn sys paint draws (press (codes "q")) app
    ≡ Turn.goes_on
        (record app { proc = some (filtered_by sys paint b'q' none widget) })
        (Effect.render_proc ∷ [])
turn_typed_example =
    turn_typed sys paint draws b'q' (record { id = codes "q"; payload = Payload.nothing }) none app
      widget refl refl refl

-- Without the filter being edited, "q" ends the loop.
abbrev idle : App ℕ
idle = record app {
  proc = some (record widget { entry = record widget.entry { editing = false } });
}

quits : turn sys paint draws (press (codes "q")) idle ≡ Turn.returned
unfolding turn act on_event first key_of handle_event gotop.Termui.Entry.handle_event beq
quits = refl

-- The turns of a list of inputs, with the effects of all.
abbrev turns : List (Input ℕ) → App ℕ → List Effect → Option (App ℕ × List Effect)
turns [] app es = some (app, es)
turns (i ∷ is) app es = elim (turn sys paint draws i app) [
  | Turn.returned ↦ none
  | Turn.panicked ↦ none
  | Turn.goes_on app' fs ↦ turns is app' (es ++ fs)
]

abbrev effects : Option (App ℕ × List Effect) → List Effect
effects none = []
effects (some r) = r.1

abbrev pkill : Effect
pkill = Effect.run (record {
  command = codes "pkill";
  args = codes "--signal" ∷ codes "SIGTERM" ∷ codes "init" ∷ [];
})

-- "d" twice kills once, and so does "d" three times.
kills_once :
    effects (turns (press (codes "d") ∷ press (codes "d") ∷ press (codes "d") ∷ []) idle [])
    ≡ pkill ∷ []
unfolding turn act on_event first second main_key key_of handle_event
    gotop.Termui.Entry.handle_event beq kill_proc
kills_once = refl

-- The help that is opened and closed between the two does not keep them apart.
kills_over_help :
    effects (
      turns
        (press (codes "d") ∷ press (codes "?") ∷ press (codes "<Escape>") ∷ press (codes "d") ∷ [])
        idle
        [])
    ≡ Effect.clear ∷ Effect.render_help ∷ Effect.render_grid ∷ pkill ∷ []
unfolding turn act on_event first second main_key help_switch key_of handle_event
    gotop.Termui.Entry.handle_event beq kill_proc
kills_over_help = refl

-- The filter is edited: Enter ends that.
turn-mode_step_example :
    Refines
      (may_panic (key_of (codes "<Enter>")) Payload.nothing || not (draws_all draws))
      true
      (mode_step true Mode.filtering (codes "<Enter>"))
      (turn sys paint draws (press (codes "<Enter>")) app)
turn-mode_step_example =
    turn-mode_step sys paint (λ size w. refl) draws Mode.filtering
      (record { id = codes "<Enter>"; payload = Payload.nothing }) none true app (refl, refl, refl)

opened :
    event_loop sys paint ((press (codes "?"), draws) ∷ []) idle
    ≡ Turn.goes_on (record idle { help_visible = true }) (Effect.clear ∷ Effect.render_help ∷ [])
unfolding event_loop turn act on_event first second main_key help_switch key_of handle_event
    gotop.Termui.Entry.handle_event beq
opened = refl

-- With the help open.
event_loop-leave_example :
    event_loop sys paint ((press (codes "?"), draws) ∷ leave none draws) idle ≡ Turn.returned
event_loop-leave_example =
    event_loop-leave sys paint (λ size w. refl) ((press (codes "?"), draws) ∷ []) none draws true
      Mode.normal idle (record idle { help_visible = true })
      (Effect.clear ∷ Effect.render_help ∷ []) refl (refl, refl, refl) opened

-- The help is left on a screen that is too narrow for a graph.
too_narrow :
    event_loop sys paint
      ((press (codes "?"), narrow) ∷ (press (codes "<Escape>"), narrow) ∷ [])
      idle
    ≡ Turn.panicked
unfolding event_loop turn act on_event first second main_key help_switch key_of handle_event
    gotop.Termui.Entry.handle_event beq
too_narrow = refl
