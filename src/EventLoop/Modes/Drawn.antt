-- ===== src/EventLoop/Modes/Drawn.antt =====
-- What a rendering that panics makes of a turn of the event loop.
use gotop.Prelude.{
  Bool, true, false, not, ◌||◌, ◌&&◌, Bool-cases, inl, inr, List, [], ◌∷◌, Option, none, some,
  if◌then◌else◌, ◌≡◌, refl, sym, ap, subst, ◌∙◌, arith,
}
use gotop.EventLoop.{App, rendered, all_drawn, is_drawn, Effect, Turn}
use gotop.EventLoop.Modes.{Mode, Refines, draws_all}

is_drawn_all :
    (draws : Effect → Bool) (e : Effect) → draws_all draws ≡ true → is_drawn draws e ≡ true
is_drawn_all draws Effect.render_grid h = ground (arith, h)
is_drawn_all draws Effect.render_bar h = ground (arith, h)
is_drawn_all draws Effect.render_proc h = ground (arith, h)
is_drawn_all draws Effect.render_help h = ground (arith, h)
is_drawn_all draws Effect.render_line h = ground (arith, h)
is_drawn_all draws Effect.clear h = refl
is_drawn_all draws (Effect.resize_bar width height) h = refl
is_drawn_all draws (Effect.resize_help width height) h = refl
is_drawn_all draws (Effect.run command) h = refl

all_drawn_all :
    (draws : Effect → Bool) (es : List Effect) → draws_all draws ≡ true → all_drawn draws es ≡ true
all_drawn_all draws [] h = refl
all_drawn_all draws (e ∷ es) h =
    ap (λ b. b && all_drawn draws es) (is_drawn_all draws e h) ∙ all_drawn_all draws es h

module _ {F : Type 0} where
  -- If all renderings return, a turn with them is the turn.
  pub rendered_all :
      (draws : Effect → Bool) (t : Turn F) → draws_all draws ≡ true → rendered draws t ≡ t
  rendered_all draws Turn.returned h = refl
  rendered_all draws Turn.panicked h = refl
  rendered_all draws (Turn.goes_on app es) h =
      ap (λ b. if b then Turn.goes_on app es else Turn.panicked) (all_drawn_all draws es h)

  weaker :
      (p q listed : Bool) (m : Option Mode) (t : Turn F)
      → Refines p listed m t
      → Refines (p || q) listed m t
  weaker p q listed m Turn.returned h = h
  weaker p q listed m Turn.panicked h = ap (λ b. b || q) h
  weaker p q listed none (Turn.goes_on app es) h = h
  weaker p q listed (some m) (Turn.goes_on app es) h = h

  pub rendered-Refines :
      (draws : Effect → Bool) (p listed : Bool) (m : Option Mode) (t : Turn F)
      → Refines p listed m t
      → Refines (p || not (draws_all draws)) listed m (rendered draws t)
  rendered-Refines draws p listed m t h = elim (Bool-cases (draws_all draws)) [
    | inl e ↦ subst (Refines _ listed m) (sym (rendered_all draws t e)) (weaker p _ listed m t h)
    | inr e ↦
        subst (λ b. Refines b listed m (rendered draws t)) (sym (ap (λ b. p || not b) e ∙ either p))
          (may_fail t h)
  ]
    where
      either : (p : Bool) → (p || true) ≡ true
      either true = refl
      either false = refl

      by_drawing :
          (b : Bool) (m : Option Mode) (app : App F) (es : List Effect)
          → Refines p listed m (Turn.goes_on app es)
          → Refines true listed m (if b then Turn.goes_on app es else Turn.panicked)
      by_drawing true none app es h = h
      by_drawing true (some m) app es h = h
      by_drawing false m app es h = refl

      may_fail : (t : Turn F) → Refines p listed m t → Refines true listed m (rendered draws t)
      may_fail Turn.returned h = h
      may_fail Turn.panicked h = refl
      may_fail (Turn.goes_on app es) h = by_drawing (all_drawn draws es) m app es h
