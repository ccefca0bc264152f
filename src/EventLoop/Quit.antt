-- ===== src/EventLoop/Quit.antt =====
-- How the event loop of cmd/gotop/main.go is left.
use gotop.Prelude.{
  ℤ, Bool, true, false, List, [], ◌∷◌, ◌++◌, Option, none, some, Bytes, codes, beq, ◌≡◌, refl, sym,
  ap, ◌∙◌, subst, if◌then◌else◌, arith, append_assoc,
}
use gotop.Widgets.Proc.{Proc, ProcWidget, Platform}
use gotop.EventLoop.{
  Payload, App, Effect, Turn, Input, key_of, painted, turn, act, rendered, all_drawn, before,
  and_then, event_loop,
}
use gotop.EventLoop.Modes.{
  Mode, normal, helping, filtering, normal_step, helping_step, closes, mode_step, may_panic, Shows,
  Refines, draws_all,
}
use gotop.EventLoop.Modes.Main.{painted-Shows}
use gotop.EventLoop.Modes.Turns.{act-mode_step}
use gotop.EventLoop.Modes.Drawn.{rendered_all}

module _ {F : Type 0} where
  abbrev pub press : Bytes → Option (List (Proc F)) → Input F
  press id procs = Input.ui_event (record { id = id; payload = Payload.nothing }) procs

  -- Escape, and then "q", with the renderings that return.
  abbrev pub leave : Option (List (Proc F)) → (Effect → Bool) → List (Input F × (Effect → Bool))
  leave procs draws =
      (press (codes "<Escape>") procs, draws) ∷ (press (codes "q") procs, draws) ∷ []

  abbrev HasMode : Bool → App F → Type 0
  HasMode listed app = (m : Mode) × Shows listed m app

  -- A loop that goes on does so in a mode.
  abbrev InMode : Bool → Turn F → Type 0
  InMode listed Turn.returned = Unit
  InMode listed Turn.panicked = Unit
  InMode listed (Turn.goes_on app es) = HasMode listed app

  Refines-InMode :
      (p listed : Bool) (m : Option Mode) (t : Turn F) → Refines p listed m t → InMode listed t
  Refines-InMode p listed m Turn.returned h = tt
  Refines-InMode p listed m Turn.panicked h = tt
  Refines-InMode p listed none (Turn.goes_on app es) h = absurd h
  Refines-InMode p listed (some m) (Turn.goes_on app es) h = (m, h)

  before-InMode :
      (listed : Bool) (es : List Effect) (t : Turn F)
      → InMode listed t
      → InMode listed (before es t)
  before-InMode listed es Turn.returned h = tt
  before-InMode listed es Turn.panicked h = tt
  before-InMode listed es (Turn.goes_on app fs) h = h

  before_nil : (t : Turn F) → before [] t ≡ t
  before_nil Turn.returned = refl
  before_nil Turn.panicked = refl
  before_nil (Turn.goes_on app es) = refl

  before-and_then :
      (es : List Effect) (t : Turn F) (go : App F → Turn F)
      → before es (and_then t go) ≡ and_then (before es t) go
  before-and_then es Turn.returned go = refl
  before-and_then es Turn.panicked go = refl
  before-and_then es (Turn.goes_on app fs) go = twice (go app)
    where
      twice : (t : Turn F) → before es (before fs t) ≡ before (es ++ fs) t
      twice Turn.returned = refl
      twice Turn.panicked = refl
      twice (Turn.goes_on end gs) = ap (Turn.goes_on end) (sym (append_assoc es fs gs))

module _ {F : Type 0} (sys : Platform F) (paint : ℤ × ℤ → ProcWidget F → ProcWidget F)
    (keeps : (size : ℤ × ℤ) (w : ProcWidget F) → (paint size w).entry ≡ w.entry) where
  act-InMode :
      (i : Input F) (listed : Bool) (app : App F)
      → HasMode listed app
      → InMode listed (act sys paint i app)
  unfolding act
  act-InMode Input.sig_term listed app h = tt
  act-InMode Input.draw_tick listed app (m, shows) = by_help app.help_visible
    where
      by_help :
          (b : Bool)
          → InMode listed (
              if b
              then Turn.goes_on app []
              else Turn.goes_on (painted sys paint app) (
                  if app.statusbar
                  then Effect.render_grid ∷ Effect.render_bar ∷ []
                  else Effect.render_grid ∷ []))
      by_help true = (m, shows)
      by_help false = (m, painted-Shows sys paint keeps listed m app shows)
  act-InMode (Input.ui_event e procs) listed app (m, shows) =
      Refines-InMode _ listed _ _ (act-mode_step sys paint keeps m e procs listed app shows)

  turn-InMode :
      (draws : Effect → Bool) (i : Input F) (listed : Bool) (app : App F)
      → HasMode listed app
      → InMode listed (turn sys paint draws i app)
  unfolding turn
  turn-InMode draws i listed app h = drawn (act sys paint i app) (act-InMode i listed app h)
    where
      by_drawing :
          (b : Bool) (app : App F) (es : List Effect)
          → HasMode listed app
          → InMode listed (if b then Turn.goes_on app es else Turn.panicked)
      by_drawing true app es h = h
      by_drawing false app es h = tt

      drawn : (t : Turn F) → InMode listed t → InMode listed (rendered draws t)
      drawn Turn.returned h = tt
      drawn Turn.panicked h = tt
      drawn (Turn.goes_on app es) h = by_drawing (all_drawn draws es) app es h

  -- Wherever the loop goes on, it is in a mode.
  event_loop-InMode :
      (is : List (Input F × (Effect → Bool))) (listed : Bool) (app : App F)
      → HasMode listed app
      → InMode listed (event_loop sys paint is app)
  unfolding event_loop
  event_loop-InMode [] listed app h = h
  event_loop-InMode ((i, draws) ∷ is) listed app h =
      next (turn sys paint draws i app) (turn-InMode draws i listed app h)
        (event_loop-InMode is listed)
    where
      next :
          (t : Turn F)
          → InMode listed t
          → ((app : App F) → HasMode listed app → InMode listed (event_loop sys paint is app))
          → InMode listed (and_then t (event_loop sys paint is))
      next Turn.returned h go = tt
      next Turn.panicked h go = tt
      next (Turn.goes_on app es) h go = before-InMode listed es _ (go app h)

  ends :
      (listed : Bool) (t : Turn F)
      → Refines false listed none t
      → (es : List Effect) → before es (and_then t (event_loop sys paint [])) ≡ Turn.returned
  ends listed Turn.returned h es = refl
  ends listed Turn.panicked h es = absurd (ground arith)
  ends listed (Turn.goes_on app fs) h es = absurd h

  quit_next :
      (procs : Option (List (Proc F))) (draws : Effect → Bool) (listed : Bool) (t : Turn F)
      → draws_all draws ≡ true
      → Refines false listed (some normal) t
      → and_then t (event_loop sys paint ((press (codes "q") procs, draws) ∷ [])) ≡ Turn.returned
  unfolding event_loop turn mode_step normal_step may_panic key_of beq
  quit_next procs draws listed Turn.returned all h = absurd (ground (arith, h))
  quit_next procs draws listed Turn.panicked all h = absurd (ground (arith, h))
  quit_next procs draws listed (Turn.goes_on app es) all h =
      ends listed _
        (subst (Refines false listed none) (sym (rendered_all draws _ all))
          (act-mode_step sys paint keeps normal _ procs listed app h))
        es

  escapes :
      (procs : Option (List (Proc F))) (m : Mode) (listed : Bool) (app : App F)
      → Shows listed m app
      → Refines false listed (some normal) (act sys paint (press (codes "<Escape>") procs) app)
  unfolding mode_step normal_step helping_step closes may_panic key_of beq
  escapes procs normal listed app shows =
      act-mode_step sys paint keeps normal _ procs listed app shows
  escapes procs helping listed app shows =
      act-mode_step sys paint keeps helping _ procs listed app shows
  escapes procs filtering listed app shows =
      act-mode_step sys paint keeps filtering _ procs listed app shows

  leaves :
      (procs : Option (List (Proc F))) (draws : Effect → Bool) (listed : Bool) (app : App F)
      → draws_all draws ≡ true
      → HasMode listed app
      → event_loop sys paint (leave procs draws) app ≡ Turn.returned
  unfolding event_loop turn
  leaves procs draws listed app all (m, shows) = quit_next procs draws listed _ all (
      subst (Refines false listed (some normal)) (sym (rendered_all draws _ all))
        (escapes procs m listed app shows))

  event_loop-append :
      (is js : List (Input F × (Effect → Bool))) (app : App F)
      → event_loop sys paint (is ++ js) app
        ≡ and_then (event_loop sys paint is app) (event_loop sys paint js)
  unfolding event_loop
  event_loop-append [] js app = sym (before_nil (event_loop sys paint js app))
  event_loop-append ((i, draws) ∷ is) js app =
      next (turn sys paint draws i app) (event_loop-append is js)
    where
      next :
          (t : Turn F)
          → ((app : App F)
              → event_loop sys paint (is ++ js) app
                ≡ and_then (event_loop sys paint is app) (event_loop sys paint js))
          → and_then t (event_loop sys paint (is ++ js))
            ≡ and_then (and_then t (event_loop sys paint is)) (event_loop sys paint js)
      next Turn.returned append = refl
      next Turn.panicked append = refl
      next (Turn.goes_on app es) append =
          ap (before es) (append app)
          ∙ before-and_then es (event_loop sys paint is app) (event_loop sys paint js)

  -- Whatever the loop has been given, from a state that is in a mode: if it still goes on, then
  -- Escape and then "q" end it, if nothing that is rendered in these two turns panics (and if what
  -- paints the process list leaves its filter alone).
  pub event_loop-leave :
      (is : List (Input F × (Effect → Bool))) (procs : Option (List (Proc F)))
      (draws : Effect → Bool) (listed : Bool) (m : Mode) (app app' : App F) (es : List Effect)
      → draws_all draws ≡ true
      → Shows listed m app
      → event_loop sys paint is app ≡ Turn.goes_on app' es
      → event_loop sys paint (is ++ leave procs draws) app ≡ Turn.returned
  event_loop-leave is procs draws listed m app app' es all shows on =
      event_loop-append is (leave procs draws) app
      ∙ ap (λ t. and_then t (event_loop sys paint (leave procs draws))) on
      ∙ ap (before es) (
          leaves procs draws listed app' all
            (subst (InMode listed) on (event_loop-InMode is listed app (m, shows))))
