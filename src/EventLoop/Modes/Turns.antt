-- ===== src/EventLoop/Modes/Turns.antt =====
-- A turn of the event loop on an event, in each mode.
use gotop.Prelude.{
  ℕ, ℤ, Bool, true, false, not, ◌||◌, List, [], ◌∷◌, Option, none, some, if◌then◌else◌, Bytes,
  codes, beq, ◌≡◌, refl, sym, ap, subst, ◌∙◌, arith,
}
use gotop.Termui.Entry.{Entry, Handled, ignored, kept, updated}
use gotop.Termui.Entry as Entry
use gotop.Widgets.Proc.{
  Proc, ProcWidget, Platform, update, respond, handle_event, sort_procs,
  convert_procs_to_table_rows,
}
use gotop.EventLoop.{
  UiEvent, App, Input, key_of, first, unless_handled, on_event_of, on_event, turn, act, Effect,
}
use gotop.EventLoop.Modes.{
  Mode, normal, helping, filtering, normal_step, helping_step, closes, mode_step, is_plain,
  may_panic, has_list, is_editing, Shows, Refines, draws_all,
}
use gotop.EventLoop.Modes.Drawn.{rendered-Refines}
use gotop.EventLoop.Modes.First.{normal_first, helping_first, filtering_first}

not_quit :
    (c d : ℕ) (s : Bytes)
    → beq (c ∷ d ∷ s) (codes "<C-c>") ≡ false
    → (beq (c ∷ d ∷ s) (codes "q") || beq (c ∷ d ∷ s) (codes "<C-c>")) ≡ false
unfolding beq
not_quit c d s h = ground arith

not_help : (c d : ℕ) (s : Bytes) → beq (c ∷ d ∷ s) (codes "?") ≡ false
unfolding beq
not_help c d s = ground arith

-- An ID of more than one rune, other than that of Control-C.
key_of_plain :
    (id : Bytes)
    → (beq id (codes "q") || beq id (codes "<C-c>")) ≡ false
    → beq id (codes "?") ≡ false
    → is_plain (key_of id) ≡ true
unfolding is_plain key_of
key_of_plain id h k = ground arith

-- What the line editor makes of an ID while it edits.
abbrev Typed : Bool → Bytes → Handled → Type 0
Typed closed id ignored = (closed ≡ false) × (is_plain (key_of id) ≡ true)
Typed closed id (kept e) = e.editing ≡ not closed
Typed closed id (updated e) = e.editing ≡ not closed

backspace-Typed :
    (id value : Bytes) (e : Entry) → e.editing ≡ true → Typed false id (Entry.backspace value e)
backspace-Typed id [] e h = h
backspace-Typed id (c ∷ value) e h = h

control-Typed :
    (id : Bytes) (e : Entry) (closing enter erase space : Bool)
    → e.editing ≡ true
    → (closing ≡ false → is_plain (key_of id) ≡ true)
    → Typed (closing || enter) id (
        if closing
        then updated (record e { value = []; editing = false })
        else if enter
        then kept (record e { editing = false })
        else if erase
        then Entry.backspace e.value e
        else if space
        then Entry.type_in (b' ' ∷ []) e
        else ignored)
control-Typed id e true enter erase space h plain = refl
control-Typed id e false true erase space h plain = refl
control-Typed id e false false true space h plain = backspace-Typed id e.value e h
control-Typed id e false false false true h plain = h
control-Typed id e false false false false h plain = (refl, plain refl)

key_of_nil : is_plain (key_of []) ≡ true
unfolding is_plain key_of beq
key_of_nil = refl

not_c_c : (b d : Bool) → (b || d) ≡ false → b ≡ false
not_c_c b d h = ground arith

closes_rune : (c : ℕ) → closes (c ∷ []) ≡ false
unfolding closes beq
closes_rune c = ground arith

by_id-Typed : (id : Bytes) (e : Entry) → e.editing ≡ true → Typed (closes id) id (Entry.by_id id e)
unfolding closes
by_id-Typed [] e h = control-Typed [] e _ _ _ _ h (λ _. key_of_nil)
by_id-Typed (c ∷ []) e h = subst (λ b. e.editing ≡ not b) (sym (closes_rune c)) h
by_id-Typed (c ∷ d ∷ s) e h =
    control-Typed (c ∷ d ∷ s) e _ _ _ _ h
      (λ none. key_of_plain (c ∷ d ∷ s) (not_quit c d s (not_c_c _ _ none)) (not_help c d s))

handle_event-Typed :
    (id : Bytes) (e : Entry) → e.editing ≡ true → Typed (closes id) id (Entry.handle_event id e)
unfolding Entry.handle_event
handle_event-Typed id e h =
    subst (λ b. Typed (closes id) id (if b then Entry.by_id id e else ignored)) (sym h)
      (by_id-Typed id e h)

handle_event-idle : (id : Bytes) (e : Entry) → e.editing ≡ false → Entry.handle_event id e ≡ ignored
unfolding Entry.handle_event
handle_event-idle id e h = ap (λ b. if b then Entry.by_id id e else ignored) h

module _ {F : Type 0} (sys : Platform F) (paint : ℤ × ℤ → ProcWidget F → ProcWidget F)
    (keeps : (size : ℤ × ℤ) (w : ProcWidget F) → (paint size w).entry ≡ w.entry) where
  update_keeps :
      (procs : Option (List (Proc F))) (w : ProcWidget F) → (update sys procs w).entry ≡ w.entry
  unfolding update convert_procs_to_table_rows sort_procs
  update_keeps none w = refl
  update_keeps (some ps) w = refl

  handled_turn :
      (listed closed : Bool) (app : App F) (w : ProcWidget F)
      → true ≡ listed
      → app.help_visible ≡ false
      → w.entry.editing ≡ not closed
      → Shows listed
          (if closed then normal else filtering)
          (record app { proc = some (paint app.size w) })
  handled_turn listed true app w l h d =
      (l, h, ap (λ (e : Entry). e.editing) (keeps app.size w) ∙ d)
  handled_turn listed false app w l h d =
      (l, h, ap (λ (e : Entry). e.editing) (keeps app.size w) ∙ d)

  -- An event that the line editor has handled or not, while the filter is edited.
  filtering_event :
      (e : UiEvent) (procs : Option (List (Proc F))) (listed : Bool) (app : App F)
      (w : ProcWidget F) (closed : Bool) (r : Handled)
      → app.proc ≡ some w
      → Shows listed filtering app
      → Typed closed e.id r
      → Refines
          (may_panic (key_of e.id) e.payload)
          listed
          (some (if closed then normal else filtering))
          (unless_handled sys paint (respond sys procs r w) e app)
  filtering_event e procs listed app w closed ignored at shows (open_still, plain) =
      subst
        (λ b.
          Refines (may_panic (key_of e.id) e.payload) listed
            (some (if b then normal else filtering)) (first sys paint (key_of e.id) e app))
        (sym open_still) (filtering_first sys paint keeps (key_of e.id) e listed app plain shows)
  filtering_event e procs listed app w closed (kept entry) at (l, h, d) typed =
      handled_turn listed closed app (record w { entry = entry }) (ap has_list (sym at) ∙ l) h typed
  filtering_event e procs listed app w closed (updated entry) at (l, h, d) typed =
      handled_turn listed closed app _ (ap has_list (sym at) ∙ l) h (
        ap (λ (n : Entry). n.editing)
          (update_keeps procs (record w { entry = entry; filter = entry.value }))
        ∙ typed)

  idle_event :
      (e : UiEvent) (procs : Option (List (Proc F))) (app : App F) (w : ProcWidget F)
      → w.entry.editing ≡ false
      → unless_handled sys paint (handle_event sys procs e.id w) e app
        ≡ first sys paint (key_of e.id) e app
  unfolding handle_event
  idle_event e procs app w h =
      ap (λ r. unless_handled sys paint (respond sys procs r w) e app)
        (handle_event-idle e.id w.entry h)

  pub act-mode_step :
      (m : Mode) (e : UiEvent) (procs : Option (List (Proc F))) (listed : Bool) (app : App F)
      → Shows listed m app
      → Refines
          (may_panic (key_of e.id) e.payload)
          listed
          (mode_step listed m e.id)
          (act sys paint (Input.ui_event e procs) app)
  unfolding act on_event mode_step
  act-mode_step normal e procs listed app shows = of_proc app.proc shows.2
    where
      of_proc :
          (o : Option (ProcWidget F))
          → is_editing o ≡ false
          → Refines
              (may_panic (key_of e.id) e.payload)
              listed
              (normal_step listed (key_of e.id))
              (on_event_of sys paint o e procs app)
      of_proc none d = normal_first sys paint keeps (key_of e.id) e listed app shows
      of_proc (some w) d =
          subst (Refines _ listed (normal_step listed (key_of e.id)))
            (sym (idle_event e procs app w d))
            (normal_first sys paint keeps (key_of e.id) e listed app shows)
  act-mode_step helping e procs listed app shows = of_proc app.proc shows.2
    where
      of_proc :
          (o : Option (ProcWidget F))
          → is_editing o ≡ false
          → Refines
              (may_panic (key_of e.id) e.payload)
              listed
              (helping_step (key_of e.id))
              (on_event_of sys paint o e procs app)
      of_proc none d = helping_first sys paint keeps (key_of e.id) e listed app shows
      of_proc (some w) d =
          subst (Refines _ listed (helping_step (key_of e.id))) (sym (idle_event e procs app w d))
            (helping_first sys paint keeps (key_of e.id) e listed app shows)
  act-mode_step filtering e procs listed app shows = of_proc app.proc refl
    where
      of_proc :
          (o : Option (ProcWidget F))
          → app.proc ≡ o
          → Refines
              (may_panic (key_of e.id) e.payload)
              listed
              (some (if closes e.id then normal else filtering))
              (on_event_of sys paint o e procs app)
      of_proc none at = absurd (ground (arith, at, shows.2))
      of_proc (some w) at =
          unfold handle_event in
          filtering_event e procs listed app w (closes e.id) (Entry.handle_event e.id w.entry) at
            shows (handle_event-Typed e.id w.entry (ap is_editing (sym at) ∙ shows.2))

  -- The loop implements the machine of the modes (if what paints the process list leaves its
  -- filter alone): in a state of mode `m`, an event leads to a state of the mode that the machine
  -- gives, with a process list if there was one; the loop returns exactly where the machine ends,
  -- and panics at most at a kill key, at an event whose payload is not what its ID says, or if
  -- there is something whose rendering panics.
  pub turn-mode_step :
      (draws : Effect → Bool) (m : Mode) (e : UiEvent) (procs : Option (List (Proc F)))
      (listed : Bool) (app : App F)
      → Shows listed m app
      → Refines
          (may_panic (key_of e.id) e.payload || not (draws_all draws))
          listed
          (mode_step listed m e.id)
          (turn sys paint draws (Input.ui_event e procs) app)
  unfolding turn
  turn-mode_step draws m e procs listed app shows =
      rendered-Refines draws _ listed _ _ (act-mode_step m e procs listed app shows)
