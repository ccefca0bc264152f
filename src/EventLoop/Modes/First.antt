-- ===== src/EventLoop/Modes/First.antt =====
-- The two switches of the event loop, in each mode.
use gotop.Prelude.{
  ℤ, Bool, true, false, not, List, [], ◌++◌, some, if◌then◌else◌, ◌≡◌, refl, sym, ap, subst, arith,
}
use gotop.Widgets.Proc.{ProcWidget, Platform}
use gotop.EventLoop.{
  Key, Payload, UiEvent, App, Effect, Turn, main_key, help_switch, finish, second, on_resize, first,
  resize, resize_effects,
}
use gotop.EventLoop.Modes.{
  Mode, normal, helping, filtering, normal_step, helping_step, is_plain, may_panic, has_list,
  is_editing, Shows, Refines,
}
use gotop.EventLoop.Modes.Main.{painted-Shows, second-Shows}

module _ {F : Type 0} (sys : Platform F) (paint : ℤ × ℤ → ProcWidget F → ProcWidget F)
    (keeps : (size : ℤ × ℤ) (w : ProcWidget F) → (paint size w).entry ≡ w.entry) where
  -- The second switch while the help is shown.
  helped :
      (k : Key) (e : UiEvent) (before : List Effect) (app : App F)
      → app.help_visible ≡ true
      → second sys paint k e before app
        ≡ Turn.goes_on (help_switch sys paint k app).0 (before ++ (help_switch sys paint k app).1)
  unfolding second
  helped k e before app h =
      ap
        (λ b.
          if b
          then Turn.goes_on (help_switch sys paint k app).0
              (before ++ (help_switch sys paint k app).1)
          else finish sys paint e before (main_key sys paint k e.payload app))
        h

  stay :
      (p listed : Bool) (m : Mode) (k : Key) (e : UiEvent) (before : List Effect) (app : App F)
      → app.help_visible ≡ true
      → Shows listed m (help_switch sys paint k app).0
      → Refines p listed (some m) (second sys paint k e before app)
  stay p listed m k e before app h shows =
      subst (Refines p listed (some m)) (sym (helped k e before app h)) shows

  help_switch-Shows :
      (p listed : Bool) (k : Key) (e : UiEvent) (before : List Effect) (app : App F)
      → is_plain k ≡ true
      → Shows listed helping app
      → Refines p listed (helping_step k) (second sys paint k e before app)
  unfolding help_switch helping_step is_plain
  help_switch-Shows p listed Key.quit_key e before app hk shows = absurd (ground arith)
  help_switch-Shows p listed Key.help_key e before app hk shows = absurd (ground arith)
  help_switch-Shows p listed Key.escape_key e before app hk (l, h, d) =
      stay p listed normal Key.escape_key e before app h (
        painted-Shows sys paint keeps listed normal (record app { help_visible = false })
          (l, refl, d))
  help_switch-Shows p listed Key.resize_key e before app hk shows =
      stay p listed helping Key.resize_key e before app shows.1 shows
  help_switch-Shows p listed Key.zoom_out e before app hk shows =
      stay p listed helping Key.zoom_out e before app shows.1 shows
  help_switch-Shows p listed Key.zoom_in e before app hk shows =
      stay p listed helping Key.zoom_in e before app shows.1 shows
  help_switch-Shows p listed Key.bits e before app hk shows =
      stay p listed helping Key.bits e before app shows.1 shows
  help_switch-Shows p listed Key.mouse_left e before app hk shows =
      stay p listed helping Key.mouse_left e before app shows.1 shows
  help_switch-Shows p listed Key.g_key e before app hk shows =
      stay p listed helping Key.g_key e before app shows.1 shows
  help_switch-Shows p listed Key.kill_term e before app hk shows =
      stay p listed helping Key.kill_term e before app shows.1 shows
  help_switch-Shows p listed Key.kill_quit e before app hk shows =
      stay p listed helping Key.kill_quit e before app shows.1 shows
  help_switch-Shows p listed Key.kill_kill e before app hk shows =
      stay p listed helping Key.kill_kill e before app shows.1 shows
  help_switch-Shows p listed Key.tab e before app hk shows =
      stay p listed helping Key.tab e before app shows.1 shows
  help_switch-Shows p listed Key.slash e before app hk shows =
      stay p listed helping Key.slash e before app shows.1 shows
  help_switch-Shows p listed Key.other e before app hk shows =
      stay p listed helping Key.other e before app shows.1 shows
  help_switch-Shows p listed (Key.motion x) e before app hk shows =
      stay p listed helping (Key.motion x) e before app shows.1 shows
  help_switch-Shows p listed (Key.sort_key x) e before app hk shows =
      stay p listed helping (Key.sort_key x) e before app shows.1 shows

  -- The key that shows and hides the help.
  help-Shows :
      (e : UiEvent) (listed shown : Bool) (app : App F)
      → has_list app.proc ≡ listed
      → app.help_visible ≡ shown
      → is_editing app.proc ≡ false
      → Refines false listed
          (some (if shown then normal else helping))
          (second sys paint Key.help_key e [] (record app { help_visible = not app.help_visible }))
  unfolding help_switch may_panic
  help-Shows e listed true app l h d =
      second-Shows sys paint keeps Key.help_key e [] listed normal _ refl (l, ap not h, d)
  help-Shows e listed false app l h d =
      stay false listed helping Key.help_key e [] _ (ap not h) (l, ap not h, d)

  any_second :
      (m : Mode) (e : UiEvent) (before : List Effect) (listed : Bool) (app : App F)
      → Shows listed m app
      → Refines
          (may_panic Key.resize_key e.payload)
          listed
          (some m)
          (second sys paint Key.resize_key e before app)
  unfolding helping_step is_plain
  any_second normal e before listed app shows =
      second-Shows sys paint keeps Key.resize_key e before listed normal app refl shows
  any_second helping e before listed app shows =
      help_switch-Shows _ listed Key.resize_key e before app refl shows
  any_second filtering e before listed app shows =
      second-Shows sys paint keeps Key.resize_key e before listed filtering app refl shows

  on_resize-Shows :
      (m : Mode) (pay : Payload) (e : UiEvent) (listed : Bool) (app : App F)
      → e.payload ≡ pay
      → Shows listed m app
      → Refines (may_panic Key.resize_key pay) listed (some m) (on_resize sys paint pay e app)
  unfolding on_resize may_panic
  on_resize-Shows m Payload.nothing e listed app h shows = refl
  on_resize-Shows m (Payload.moused x y) e listed app h shows = refl
  on_resize-Shows m (Payload.resized x y) e listed app h shows =
      subst
        (λ pay. Refines (may_panic Key.resize_key pay) listed (some m) (
          second sys paint Key.resize_key e (resize_effects sys paint x y app.statusbar)
            (resize sys paint x y app)))
        h
        (any_second m e (resize_effects sys paint x y app.statusbar) listed
          (resize sys paint x y app) shows)

  -- The first switch, without the filter being edited.
  pub normal_first :
      (k : Key) (e : UiEvent) (listed : Bool) (app : App F)
      → Shows listed normal app
      → Refines (may_panic k e.payload) listed (normal_step listed k) (first sys paint k e app)
  unfolding first normal_step may_panic
  normal_first Key.quit_key e listed app shows = refl
  normal_first Key.help_key e listed app (l, h, d) = help-Shows e listed false app l h d
  normal_first Key.resize_key e listed app shows =
      on_resize-Shows normal e.payload e listed app refl shows
  normal_first Key.escape_key e listed app shows =
      second-Shows sys paint keeps Key.escape_key e [] listed normal app refl shows
  normal_first Key.zoom_out e listed app shows =
      second-Shows sys paint keeps Key.zoom_out e [] listed normal app refl shows
  normal_first Key.zoom_in e listed app shows =
      second-Shows sys paint keeps Key.zoom_in e [] listed normal app refl shows
  normal_first Key.bits e listed app shows =
      second-Shows sys paint keeps Key.bits e [] listed normal app refl shows
  normal_first Key.mouse_left e listed app shows =
      second-Shows sys paint keeps Key.mouse_left e [] listed normal app refl shows
  normal_first Key.g_key e listed app shows =
      second-Shows sys paint keeps Key.g_key e [] listed normal app refl shows
  normal_first Key.kill_term e listed app shows =
      second-Shows sys paint keeps Key.kill_term e [] listed normal app refl shows
  normal_first Key.kill_quit e listed app shows =
      second-Shows sys paint keeps Key.kill_quit e [] listed normal app refl shows
  normal_first Key.kill_kill e listed app shows =
      second-Shows sys paint keeps Key.kill_kill e [] listed normal app refl shows
  normal_first Key.tab e listed app shows =
      second-Shows sys paint keeps Key.tab e [] listed normal app refl shows
  normal_first Key.slash e listed app shows =
      second-Shows sys paint keeps Key.slash e [] listed normal app refl shows
  normal_first Key.other e listed app shows =
      second-Shows sys paint keeps Key.other e [] listed normal app refl shows
  normal_first (Key.motion x) e listed app shows =
      second-Shows sys paint keeps (Key.motion x) e [] listed normal app refl shows
  normal_first (Key.sort_key x) e listed app shows =
      second-Shows sys paint keeps (Key.sort_key x) e [] listed normal app refl shows

  pub helping_first :
      (k : Key) (e : UiEvent) (listed : Bool) (app : App F)
      → Shows listed helping app
      → Refines (may_panic k e.payload) listed (helping_step k) (first sys paint k e app)
  unfolding first helping_step is_plain may_panic
  helping_first Key.quit_key e listed app shows = refl
  helping_first Key.help_key e listed app (l, h, d) = help-Shows e listed true app l h d
  helping_first Key.resize_key e listed app shows =
      on_resize-Shows helping e.payload e listed app refl shows
  helping_first Key.escape_key e listed app shows =
      help_switch-Shows _ listed Key.escape_key e [] app refl shows
  helping_first Key.zoom_out e listed app shows =
      help_switch-Shows _ listed Key.zoom_out e [] app refl shows
  helping_first Key.zoom_in e listed app shows =
      help_switch-Shows _ listed Key.zoom_in e [] app refl shows
  helping_first Key.bits e listed app shows =
      help_switch-Shows _ listed Key.bits e [] app refl shows
  helping_first Key.mouse_left e listed app shows =
      help_switch-Shows _ listed Key.mouse_left e [] app refl shows
  helping_first Key.g_key e listed app shows =
      help_switch-Shows _ listed Key.g_key e [] app refl shows
  helping_first Key.kill_term e listed app shows =
      help_switch-Shows _ listed Key.kill_term e [] app refl shows
  helping_first Key.kill_quit e listed app shows =
      help_switch-Shows _ listed Key.kill_quit e [] app refl shows
  helping_first Key.kill_kill e listed app shows =
      help_switch-Shows _ listed Key.kill_kill e [] app refl shows
  helping_first Key.tab e listed app shows = help_switch-Shows _ listed Key.tab e [] app refl shows
  helping_first Key.slash e listed app shows =
      help_switch-Shows _ listed Key.slash e [] app refl shows
  helping_first Key.other e listed app shows =
      help_switch-Shows _ listed Key.other e [] app refl shows
  helping_first (Key.motion x) e listed app shows =
      help_switch-Shows _ listed (Key.motion x) e [] app refl shows
  helping_first (Key.sort_key x) e listed app shows =
      help_switch-Shows _ listed (Key.sort_key x) e [] app refl shows

  edited_still : (b : Bool) → (if b then filtering else filtering) ≡ filtering
  edited_still true = refl
  edited_still false = refl

  pub filtering_first :
      (k : Key) (e : UiEvent) (listed : Bool) (app : App F)
      → is_plain k ≡ true
      → Shows listed filtering app
      → Refines (may_panic k e.payload) listed (some filtering) (first sys paint k e app)
  unfolding first is_plain may_panic
  filtering_first Key.quit_key e listed app hk shows = absurd (ground arith)
  filtering_first Key.help_key e listed app hk shows = absurd (ground arith)
  filtering_first Key.resize_key e listed app hk shows =
      on_resize-Shows filtering e.payload e listed app refl shows
  filtering_first Key.slash e listed app hk shows =
      subst (λ m. Refines false listed (some m) (second sys paint Key.slash e [] app))
        (edited_still listed)
        (second-Shows sys paint keeps Key.slash e [] listed filtering app refl shows)
  filtering_first Key.escape_key e listed app hk shows =
      second-Shows sys paint keeps Key.escape_key e [] listed filtering app refl shows
  filtering_first Key.zoom_out e listed app hk shows =
      second-Shows sys paint keeps Key.zoom_out e [] listed filtering app refl shows
  filtering_first Key.zoom_in e listed app hk shows =
      second-Shows sys paint keeps Key.zoom_in e [] listed filtering app refl shows
  filtering_first Key.bits e listed app hk shows =
      second-Shows sys paint keeps Key.bits e [] listed filtering app refl shows
  filtering_first Key.mouse_left e listed app hk shows =
      second-Shows sys paint keeps Key.mouse_left e [] listed filtering app refl shows
  filtering_first Key.g_key e listed app hk shows =
      second-Shows sys paint keeps Key.g_key e [] listed filtering app refl shows
  filtering_first Key.kill_term e listed app hk shows =
      second-Shows sys paint keeps Key.kill_term e [] listed filtering app refl shows
  filtering_first Key.kill_quit e listed app hk shows =
      second-Shows sys paint keeps Key.kill_quit e [] listed filtering app refl shows
  filtering_first Key.kill_kill e listed app hk shows =
      second-Shows sys paint keeps Key.kill_kill e [] listed filtering app refl shows
  filtering_first Key.tab e listed app hk shows =
      second-Shows sys paint keeps Key.tab e [] listed filtering app refl shows
  filtering_first Key.other e listed app hk shows =
      second-Shows sys paint keeps Key.other e [] listed filtering app refl shows
  filtering_first (Key.motion x) e listed app hk shows =
      second-Shows sys paint keeps (Key.motion x) e [] listed filtering app refl shows
  filtering_first (Key.sort_key x) e listed app hk shows =
      second-Shows sys paint keeps (Key.sort_key x) e [] listed filtering app refl shows
