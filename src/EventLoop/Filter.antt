-- ===== src/EventLoop/Filter.antt =====
-- Typing into the filter in the event loop of cmd/gotop/main.go.
use gotop.Prelude.{
  ℕ, ℤ, Bool, true, false, ◌&&◌, refl, List, [], ◌∷◌, ◌++◌, Option, some, if◌then◌else◌, ◌≡◌, ap,
  ◌∙◌,
}
use gotop.Termui.Entry.{Entry, Handled, ignored, kept, updated}
use gotop.Termui.Entry as Entry
use gotop.Widgets.Proc.{Proc, ProcWidget, Platform, update, respond, handle_event}
use gotop.EventLoop.{
  UiEvent, App, Effect, Turn, Input, unless_handled, on_event_of, on_event, turn, act, rendered,
}

handle_event_rune :
    (c : ℕ) (e : Entry)
    → e.editing ≡ true
    → Entry.handle_event (c ∷ []) e ≡ updated (record e { value = e.value ++ (c ∷ []) })
unfolding Entry.handle_event
handle_event_rune c e h =
    ap (λ b. if b then updated (record e { value = e.value ++ (c ∷ []) }) else ignored) h

module _ {F : Type 0} (sys : Platform F) (paint : ℤ × ℤ → ProcWidget F → ProcWidget F) where
  -- The list after a rune was typed into the filter.
  abbrev pub filtered_by : ℕ → Option (List (Proc F)) → ProcWidget F → ProcWidget F
  filtered_by c procs w =
      let value = w.entry.value ++ (c ∷ []) in
      update sys procs (record w { entry = record w.entry { value = value }; filter = value })

  -- While the filter is edited, each key whose ID is one rune is added to the filter and the list
  -- is fetched anew; the key is not looked at further, so the loop neither returns nor starts a
  -- command, and the turn panics only if the rendering of the process list does.
  pub turn_typed :
      (draws : Effect → Bool) (c : ℕ) (e : UiEvent) (procs : Option (List (Proc F))) (app : App F)
      (w : ProcWidget F)
      → app.proc ≡ some w
      → w.entry.editing ≡ true
      → e.id ≡ c ∷ []
      → turn sys paint draws (Input.ui_event e procs) app ≡ (
          if draws Effect.render_proc
          then Turn.goes_on
              (record app { proc = some (paint app.size (filtered_by c procs w)) })
              (Effect.render_proc ∷ [])
          else Turn.panicked)
  unfolding turn act on_event
  turn_typed draws c e procs app w shown editing typed =
      ap (λ o. rendered draws (on_event_of sys paint o e procs app)) shown
      ∙ ap (λ r. rendered draws (unless_handled sys paint r e app)) handled
      ∙ one (draws Effect.render_proc) _ _
    where
      one : (b : Bool) (t u : Turn F) → (if b && true then t else u) ≡ (if b then t else u)
      one true t u = refl
      one false t u = refl

      handled : handle_event sys procs e.id w ≡ (true, filtered_by c procs w)
      handled =
          unfold handle_event in
          ap (λ i. respond sys procs (Entry.handle_event i w.entry) w) typed
          ∙ ap (λ h. respond sys procs h w) (handle_event_rune c w.entry editing)
