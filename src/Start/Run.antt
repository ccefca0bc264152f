-- ===== src/Start/Run.antt =====
-- How `run` of cmd/gotop/main.go ends.
use gotop.Prelude.{◌≤◌, ℤ, Bool, true, List, Option, none, some, All, Bytes, ◌≡◌}
use gotop.Termui.Geometry.{Rect}
use gotop.Config.{Config}
use gotop.Layout.Parser.{parse_layout}
use gotop.Layout.Rows.Progress.{SpansOk}
use gotop.Widgets.Proc.{Proc, ProcWidget, Platform}
use gotop.EventLoop.{Effect, Turn, event_loop}
use gotop.EventLoop.Modes.{draws_all}
use gotop.EventLoop.Quit.{leave}
use gotop.Start.{Machine, get_layout, Outcome, exits, panics, begins}
use gotop.Start.Colored.{Colored}

-- The spans of the layouts that can be read are such that the sum of two is an `int`.
abbrev pub SmallSpans : Machine → Type 0
SmallSpans m = (name text : Bytes) → get_layout m name ≡ some text → All SpansOk (parse_layout text)

module _ {F : Type 0} (sys : Platform F) (outer inner : Rect) (cpu_count : ℤ)
    (procs : Option (List (Proc F))) (paint : ℤ × ℤ → ProcWidget F → ProcWidget F)
    (keeps : (size : ℤ × ℤ) (w : ProcWidget F) → (paint size w).entry ≡ w.entry)
    (draws : Effect → Bool) (all : draws_all draws ≡ true) where
  -- The program ends with a status of 2 at most, or its event loop begins and can be left by
  -- Escape and "q".
  abbrev pub Ends : Outcome F → Type 0
  Ends (exits n) = n ≤ 2
  Ends panics = ⊥
  Ends (begins app) = event_loop sys paint (leave none draws) app ≡ Turn.returned
