-- ===== src/EventLoop.antt =====
-- `eventLoop` of cmd/gotop/main.go, one turn of the loop at a time. An event's ID is a list of
-- runes. What termui's `Render` leaves of the process list, after its `Draw` on a screen of that
-- size, is the parameter `paint`; an argument says what `getProcs` returns when the filter changes.
-- Some widgets panic when they are drawn in a rectangle that is too small, so an argument says which
-- renderings of a turn return.
pub mod Keys
pub mod Filter
pub mod Scale
pub mod Modes
pub mod Quit
mod Tests
use gotop.Prelude.{
  ℕ, ℤ, pos, ◌+ℤ◌, ◌-ℤ◌, ltb_ℤ, Bool, true, false, not, ◌||◌, ◌&&◌, wrap_int, List, [], ◌∷◌, ◌++◌,
  Option, none, some, if◌then◌else◌, map, Bytes, codes, beq,
}
use gotop.Widgets.Proc.{
  Proc, ProcWidget, Platform, SortMethod, Command, change_proc_sort_method,
  toggle_showing_grouped_procs, set_editing_filter, handle_event, kill_proc,
}
use gotop.Widgets.Proc.Rows.{Motion, move}

-- The IDs that the loop tells apart.
pub data Key : Type 0 where
  quit_key help_key resize_key escape_key zoom_out zoom_in bits mouse_left g_key kill_term kill_quit
        kill_kill tab slash other :
      Key
  motion : Motion → Key
  sort_key : SortMethod → Key

unfoldable pub key_of : Bytes → Key
key_of id =
    if beq id (codes "q") || beq id (codes "<C-c>")
    then quit_key
    else if beq id (codes "?")
    then help_key
    else if beq id (codes "<Resize>")
    then resize_key
    else if beq id (codes "<Escape>")
    then escape_key
    else if beq id (codes "h")
    then zoom_out
    else if beq id (codes "l")
    then zoom_in
    else if beq id (codes "b")
    then bits
    else if beq id (codes "<MouseLeft>")
    then mouse_left
    else if beq id (codes "k") || (beq id (codes "<Up>") || beq id (codes "<MouseWheelUp>"))
    then motion Motion.up
    else if beq id (codes "j") || (beq id (codes "<Down>") || beq id (codes "<MouseWheelDown>"))
    then motion Motion.down
    else if beq id (codes "<Home>")
    then motion Motion.top
    else if beq id (codes "g")
    then g_key
    else if beq id (codes "G") || beq id (codes "<End>")
    then motion Motion.bottom
    else if beq id (codes "<C-d>")
    then motion Motion.half_down
    else if beq id (codes "<C-u>")
    then motion Motion.half_up
    else if beq id (codes "<C-f>") || beq id (codes "<PageDown>")
    then motion Motion.page_down
    else if beq id (codes "<C-b>") || beq id (codes "<PageUp>")
    then motion Motion.page_up
    else if beq id (codes "d")
    then kill_term
    else if beq id (codes "3")
    then kill_quit
    else if beq id (codes "9")
    then kill_kill
    else if beq id (codes "<Tab>")
    then tab
    else if beq id (codes "m")
    then sort_key SortMethod.mem
    else if beq id (codes "c")
    then sort_key SortMethod.cpu
    else if beq id (codes "n")
    then sort_key SortMethod.cmd
    else if beq id (codes "p")
    then sort_key SortMethod.pid
    else if beq id (codes "/")
    then slash
    else other

pub data Payload : Type 0 where
  nothing : Payload
  resized moused : ℤ → ℤ → Payload

pub record UiEvent : Type 0 where
  pub id : Bytes
  pub payload : Payload

-- `lines` are the horizontal scales of `grid.Lines`; `size` is the rectangle of the grid, which
-- starts at (0, 0).
pub record App (F : Type 0) : Type 0 where
  pub help_visible : Bool
  pub statusbar : Bool
  pub scale : ℤ
  pub previous_key : Bytes
  pub proc : Option (ProcWidget F)
  pub net_mbps : Option Bool
  pub lines : List ℤ
  pub size : ℤ × ℤ

pub data Effect : Type 0 where
  render_grid render_bar render_proc render_help render_line clear : Effect
  resize_bar : ℤ → ℤ → Effect
  resize_help : ℤ → ℤ → Effect
  run : Command → Effect

-- The loop returns, the code panics, or the loop goes on.
pub data Turn (F : Type 0) : Type 0 where
  returned panicked : Turn F
  goes_on : App F → List Effect → Turn F

pub data Input (F : Type 0) : Type 0 where
  sig_term draw_tick : Input F
  ui_event : UiEvent → Option (List (Proc F)) → Input F

-- Does the rendering return, if the effect is one?
abbrev pub is_drawn : (Effect → Bool) → Effect → Bool
is_drawn draws Effect.clear = true
is_drawn draws (Effect.resize_bar width height) = true
is_drawn draws (Effect.resize_help width height) = true
is_drawn draws (Effect.run command) = true
is_drawn draws e = draws e

abbrev pub all_drawn : (Effect → Bool) → List Effect → Bool
all_drawn draws [] = true
all_drawn draws (e ∷ es) = is_drawn draws e && all_drawn draws es

module _ {F : Type 0} where
  -- A turn in which what cannot be rendered panics.
  abbrev pub rendered : (Effect → Bool) → Turn F → Turn F
  rendered draws Turn.returned = Turn.returned
  rendered draws Turn.panicked = Turn.panicked
  rendered draws (Turn.goes_on app es) =
      if all_drawn draws es then Turn.goes_on app es else Turn.panicked

  -- A turn, and then the turns that follow it.
  abbrev pub before : List Effect → Turn F → Turn F
  before es Turn.returned = Turn.returned
  before es Turn.panicked = Turn.panicked
  before es (Turn.goes_on app fs) = Turn.goes_on app (es ++ fs)

  abbrev pub and_then : Turn F → (App F → Turn F) → Turn F
  and_then Turn.returned go = Turn.returned
  and_then Turn.panicked go = Turn.panicked
  and_then (Turn.goes_on app es) go = before es (go app)

module _ {F : Type 0} (sys : Platform F) (paint : ℤ × ℤ → ProcWidget F → ProcWidget F) where
  abbrev pub painted : App F → App F
  painted app = record app {
    proc = elim app.proc [ none ↦ none | some w ↦ some (paint app.size w) ];
  }

  -- `if grid.Proc != nil { f; ui.Render(grid.Proc) }`
  abbrev pub on_proc_of :
      Option (ProcWidget F) → App F → (ProcWidget F → ProcWidget F) → App F × List Effect
  on_proc_of none app f = (app, [])
  on_proc_of (some w) app f = (record app { proc = some (paint app.size (f w)) }, render_proc ∷ [])

  abbrev pub on_proc : App F → (ProcWidget F → ProcWidget F) → App F × List Effect
  on_proc app f = on_proc_of app.proc app f

  -- A key that counts only after another one.
  abbrev pub after_key : Bytes → App F → Bool
  after_key key app = beq app.previous_key key

  abbrev pub killed : App F → Option (Command × ProcWidget F) → Option (App F × List Effect)
  killed app none = none
  killed app (some (cmd, w)) = some (record app { proc = some w }, run cmd ∷ [])

  abbrev pub kill_in : Option (ProcWidget F) → Bytes → App F → Option (App F × List Effect)
  kill_in none sig_name app = some (app, [])
  kill_in (some w) sig_name app =
      if after_key (codes "d") app then killed app (kill_proc sys sig_name w) else some (app, [])

  abbrev pub kill : Bytes → App F → Option (App F × List Effect)
  kill sig_name app = kill_in app.proc sig_name app

  abbrev pub bad_click : Option (ProcWidget F) → App F → Option (App F × List Effect)
  bad_click none app = some (app, [])
  bad_click (some w) app = none

  -- The switch while the help is hidden; `none` is a panic.
  unfoldable pub main_key : Key → Payload → App F → Option (App F × List Effect)
  main_key help_key pay app = some (painted app, render_grid ∷ [])
  main_key zoom_out pay app =
      let scale = wrap_int (app.scale +ℤ pos 3) in
      some (
        painted (record app { scale = scale; lines = map (λ _. scale) app.lines }),
        render_grid ∷ [],
      )
  main_key zoom_in pay app =
      let scale = app.scale -ℤ pos 3 in
      if ltb_ℤ (pos 3) app.scale
      then some (
        record app { scale = scale; lines = map (λ _. scale) app.lines },
        map (λ _. render_line) app.lines,
      )
      else some (app, [])
  main_key bits pay app =
      some
        (record app { net_mbps = elim app.net_mbps [ none ↦ none | some on ↦ some (not on) ] }, [])
  main_key resize_key pay app =
      some (painted app, if app.statusbar then render_grid ∷ render_bar ∷ [] else render_grid ∷ [])
  main_key mouse_left (moused x y) app =
      some (on_proc app (λ w. record w { table = move (Motion.click x y) w.table }))
  main_key mouse_left pay app = bad_click app.proc app
  main_key (motion m) pay app = some (on_proc app (λ w. record w { table = move m w.table }))
  main_key g_key pay app =
      if after_key (codes "g") app
      then some (on_proc app (λ w. record w { table = move Motion.top w.table }))
      else some (app, [])
  main_key kill_term pay app = kill (codes "SIGTERM") app
  main_key kill_quit pay app = kill (codes "SIGQUIT") app
  main_key kill_kill pay app = kill (codes "SIGKILL") app
  main_key tab pay app = some (on_proc app (toggle_showing_grouped_procs sys))
  main_key (sort_key m) pay app = some (on_proc app (change_proc_sort_method sys m))
  main_key slash pay app = some (on_proc app (set_editing_filter sys true))
  main_key _ pay app = some (app, [])

  -- The switch while the help is shown.
  unfoldable pub help_switch : Key → App F → App F × List Effect
  help_switch help_key app = (app, clear ∷ render_help ∷ [])
  help_switch escape_key app = (painted (record app { help_visible = false }), render_grid ∷ [])
  help_switch resize_key app = (app, render_help ∷ [])
  help_switch _ app = (app, [])

  abbrev pub next_key : Bytes → App F → App F
  next_key id app = record app { previous_key = if beq app.previous_key id then [] else id }

  abbrev pub finish : UiEvent → List Effect → Option (App F × List Effect) → Turn F
  finish e before none = panicked
  finish e before (some (app, effects)) = goes_on (next_key e.id app) (before ++ effects)

  -- What follows the first switch.
  unfoldable pub second : Key → UiEvent → List Effect → App F → Turn F
  unfolding main_key help_switch
  second key e before app =
      if app.help_visible
      then goes_on (help_switch key app).0 (before ++ (help_switch key app).1)
      else finish e before (main_key key e.payload app)

  abbrev pub resize : ℤ → ℤ → App F → App F
  resize width height app = record app {
    size = (width, if app.statusbar then height -ℤ pos 1 else height);
  }

  abbrev pub resize_effects : ℤ → ℤ → Bool → List Effect
  resize_effects width height true = resize_bar width height ∷ resize_help width height ∷ clear ∷ []
  resize_effects width height false = resize_help width height ∷ clear ∷ []

  -- The payload of a "<Resize>" has to be a size.
  unfoldable pub on_resize : Payload → UiEvent → App F → Turn F
  unfolding second
  on_resize (resized width height) e app =
      second resize_key e (resize_effects width height app.statusbar) (resize width height app)
  on_resize _ e app = panicked

  -- The first switch.
  unfoldable pub first : Key → UiEvent → App F → Turn F
  unfolding second on_resize
  first quit_key e app = returned
  first help_key e app = second help_key e [] (record app { help_visible = not app.help_visible })
  first resize_key e app = on_resize e.payload e app
  first key e app = second key e [] app

  abbrev pub unless_handled : Bool × ProcWidget F → UiEvent → App F → Turn F
  unless_handled (true, w) e app =
      goes_on (record app { proc = some (paint app.size w) }) (render_proc ∷ [])
  unless_handled (false, w) e app = first (key_of e.id) e app

  -- The process list sees the event first.
  abbrev pub on_event_of : Option (ProcWidget F) → UiEvent → Option (List (Proc F)) → App F → Turn F
  on_event_of none e procs app = first (key_of e.id) e app
  on_event_of (some w) e procs app = unless_handled (handle_event sys procs e.id w) e app

  unfoldable pub on_event : UiEvent → Option (List (Proc F)) → App F → Turn F
  unfolding first key_of
  on_event e procs app = on_event_of app.proc e procs app

  -- A turn whose renderings all return.
  unfoldable pub act : Input F → App F → Turn F
  unfolding on_event
  act sig_term app = returned
  act draw_tick app =
      if app.help_visible
      then goes_on app []
      else goes_on (painted app)
          (if app.statusbar then render_grid ∷ render_bar ∷ [] else render_grid ∷ [])
  act (ui_event e procs) app = on_event e procs app

  unfoldable pub turn : (Effect → Bool) → Input F → App F → Turn F
  unfolding act
  turn draws i app = rendered draws (act i app)

  -- The loop over a list of inputs; `goes_on` says that it waits for the next one.
  unfoldable pub event_loop : List (Input F × (Effect → Bool)) → App F → Turn F
  unfolding turn
  event_loop [] app = goes_on app []
  event_loop ((i, draws) ∷ is) app = and_then (turn draws i app) (event_loop is)
