-- ===== src/EventLoop/Modes.antt =====
-- The modes of the event loop of cmd/gotop/main.go: a machine that knows only whether the help is
-- shown and whether the filter is edited, and how the loop implements it.
pub mod Main
pub mod First
pub mod Drawn
pub mod Turns
use gotop.Prelude.{
  ℕ, ℤ, pos, ◌+ℤ◌, ltb_ℤ, Bool, true, false, ◌&&◌, ◌>>=◌, not, ◌||◌, List, [], ◌∷◌, ◌++◌, Option,
  none, some, if◌then◌else◌, map, Bytes, codes, beq, beq_iff, ◌≡◌, ◌≢◌, ◌⊎◌, refl, sym, ap, subst,
  ◌∙◌, inl, inr, arith,
}
use gotop.Termui.Entry.{Entry, Handled, ignored, kept, updated}
use gotop.Termui.Entry as Entry
use gotop.Widgets.Proc.{
  Proc, ProcWidget, Platform, Command, SortMethod, update, respond, handle_event, kill_proc, row_at,
  change_proc_sort_method, toggle_showing_grouped_procs, set_editing_filter, is_same, refresh,
  sort_procs, convert_procs_to_table_rows,
}
use gotop.Termui.Table.{scroll_top}
use gotop.EventLoop.{
  Key, Payload, UiEvent, App, Effect, Turn, Input, key_of, painted, on_proc, on_proc_of, killed,
  kill_in, bad_click, main_key, help_switch, finish, second, on_resize, first, unless_handled,
  on_event_of, on_event, turn, resize, resize_effects,
}

pub data Mode : Type 0 where
  normal helping filtering : Mode

-- The mode after a key; `none` says that the loop returns. `listed` says that there is a process
-- list.
unfoldable pub normal_step : Bool → Key → Option Mode
normal_step listed Key.quit_key = none
normal_step listed Key.help_key = some helping
normal_step listed Key.slash = some (if listed then filtering else normal)
normal_step listed _ = some normal

unfoldable pub helping_step : Key → Option Mode
helping_step Key.quit_key = none
helping_step Key.help_key = some normal
helping_step Key.escape_key = some normal
helping_step _ = some helping

unfoldable pub closes : Bytes → Bool
closes id = (beq id (codes "<C-c>") || beq id (codes "<Escape>")) || beq id (codes "<Enter>")

unfoldable pub mode_step : Bool → Mode → Bytes → Option Mode
unfolding normal_step helping_step closes
mode_step listed normal id = normal_step listed (key_of id)
mode_step listed helping id = helping_step (key_of id)
mode_step listed filtering id = some (if closes id then normal else filtering)

-- Neither ends the loop nor opens the help.
unfoldable pub is_plain : Key → Bool
is_plain Key.quit_key = false
is_plain Key.help_key = false
is_plain _ = true

-- The keys whose handling can panic: a payload that is not what the key's ID says, or a kill with
-- no row under the cursor.
unfoldable pub may_panic : Key → Payload → Bool
may_panic Key.resize_key (Payload.resized x y) = false
may_panic Key.resize_key pay = true
may_panic Key.mouse_left (Payload.moused x y) = false
may_panic Key.mouse_left pay = true
may_panic Key.kill_term pay = true
may_panic Key.kill_quit pay = true
may_panic Key.kill_kill pay = true
may_panic _ pay = false

abbrev pub is_helping : Mode → Bool
is_helping helping = true
is_helping _ = false

abbrev pub is_filtering : Mode → Bool
is_filtering filtering = true
is_filtering _ = false

-- What the main switch makes of the mode.
abbrev pub after_main : Bool → Key → Mode → Mode
after_main listed Key.slash m = if listed then filtering else m
after_main listed _ m = m

module _ {F : Type 0} where
  abbrev pub has_list : Option (ProcWidget F) → Bool
  has_list none = false
  has_list (some w) = true

  abbrev pub is_editing : Option (ProcWidget F) → Bool
  is_editing none = false
  is_editing (some w) = w.entry.editing

  -- The state is in the mode `m`, and has a process list as `listed` says.
  abbrev pub Shows : Bool → Mode → App F → Type 0
  Shows listed m app =
      (has_list app.proc ≡ listed)
      × (app.help_visible ≡ is_helping m)
      × (is_editing app.proc ≡ is_filtering m)

  -- The turn does what the machine says, or panics at a key that may.
  abbrev pub Refines : Bool → Bool → Option Mode → Turn F → Type 0
  Refines panics listed m Turn.panicked = panics ≡ true
  Refines panics listed m Turn.returned = m ≡ none
  Refines panics listed none (Turn.goes_on app es) = ⊥
  Refines panics listed (some m) (Turn.goes_on app es) = Shows listed m app

  abbrev pub After : Bool → Bool → Mode → Option (App F × List Effect) → Type 0
  After panics listed m none = panics ≡ true
  After panics listed m (some r) = Shows listed m r.0

-- Do all renderings return?
abbrev pub draws_all : (Effect → Bool) → Bool
draws_all draws =
    draws Effect.render_grid
    && (draws Effect.render_bar
        && (draws Effect.render_proc && (draws Effect.render_help && draws Effect.render_line)))
