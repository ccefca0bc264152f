-- ===== src/Logging/Rotate.antt =====
-- What `RotateWriter` of logging/logging.go keeps of the logs.
use gotop.Prelude.{
  pos, ltb_ℤ, ℕ, Bool, true, false, [], ◌++◌, Option, none, some, if◌then◌else◌, Bytes, length, ◌≡◌,
  ◌≢◌, refl, sym, ap, ◌∙◌, subst, arith,
}
use gotop.Logging.{
  LogName, current, backup, Files, RotateWriter, unless_failed, rename_found, move_log, move_logs,
  rotate, rotated, write,
}

abbrev pub size_of : Option Bytes → Option ℕ
size_of none = none
size_of (some text) = some (length text)

-- The files as texts, on a disk on which nothing fails.
pub record Works {S : Type 0} (os : Files S) : Type 1 where
  pub text : S → LogName → Option Bytes
  pub stat_size : (n : LogName) (s : S) → os.stat n s ≡ size_of (text s n)
  pub rename_ok :
      (from to : LogName) (s : S) (t : Bytes)
      → text s from ≡ some t
      → (os.rename from to s).1 ≡ true
  pub rename_to :
      (from to : LogName) (s : S) (t : Bytes)
      → text s from ≡ some t
      → from ≢ to
      → text (os.rename from to s).0 to ≡ some t
  pub rename_from :
      (from to : LogName) (s : S) (t : Bytes)
      → text s from ≡ some t
      → from ≢ to
      → text (os.rename from to s).0 from ≡ none
  pub rename_other :
      (from to n : LogName) (s : S) (t : Bytes)
      → text s from ≡ some t
      → n ≢ from
      → n ≢ to
      → text (os.rename from to s).0 n ≡ text s n
  pub open_ok : (n : LogName) (s : S) → (os.open_file n s).1 ≡ true
  pub open_empty : (n : LogName) (s : S) → text (os.open_file n s).0 n ≡ some []
  pub open_other : (n m : LogName) (s : S) → m ≢ n → text (os.open_file n s).0 m ≡ text s m
  pub close_ok : (s : S) → (os.close s).1 ≡ true
  pub close_text : (s : S) (n : LogName) → text (os.close s).0 n ≡ text s n
  pub write_ok : (output : Bytes) (s : S) → (os.write_file output s).1 ≡ true
  pub write_current :
      (output t : Bytes) (s : S)
      → text s current ≡ some t
      → text (os.write_file output s).0 current ≡ some (t ++ output)
  pub write_other :
      (output : Bytes) (s : S) (n : LogName)
      → n ≢ current
      → text (os.write_file output s).0 n ≡ text s n

abbrev pub or_kept : Option Bytes → Option Bytes → Option Bytes
or_kept none old = old
or_kept (some t) old = some t

log_backup : (i : ℕ) → current ≢ backup i
log_backup i e = absurd (ground (arith, e))

backup_log : (i : ℕ) → backup i ≢ current
backup_log i e = absurd (ground (arith, e))

numbers : (i j : ℕ) → i ≢ j → backup i ≢ backup j
numbers i j ne e = absurd (ground (arith, ne, e))

module _ {S : Type 0} (os : Files S) (works : Works os) where
  -- A file that is moved, if it is there: it replaces the other one, and is gone.
  record Moved (from to : LogName) (s : S) (r : S × Bool) : Type 0 where
    ok : r.1 ≡ true
    at_to : works.text r.0 to ≡ or_kept (works.text s from) (works.text s to)
    at_from : works.text r.0 from ≡ none
    at_other : (n : LogName) → n ≢ from → n ≢ to → works.text r.0 n ≡ works.text s n

  move_log-Moved : (from to : LogName) (s : S) → from ≢ to → Moved from to s (move_log os from to s)
  unfolding move_log
  move_log-Moved from to s ne = by_text (works.text s from) refl
    where
      by_text :
          (o : Option Bytes)
          → works.text s from ≡ o
          → Moved from to s (rename_found os (os.stat from s) from to s)
      by_text none e =
          subst (λ o. Moved from to s (rename_found os o from to s))
            (sym (works.stat_size from s ∙ ap size_of e))
            (record {
              ok = refl;
              at_to = ap (λ o. or_kept o (works.text s to)) (sym e);
              at_from = e;
              at_other = λ n h k. refl;
            })
      by_text (some t) e =
          subst (λ o. Moved from to s (rename_found os o from to s))
            (sym (works.stat_size from s ∙ ap size_of e))
            (record {
              ok = works.rename_ok from to s t e;
              at_to =
                  works.rename_to from to s t e ne ∙ ap (λ o. or_kept o (works.text s to)) (sym e);
              at_from = works.rename_from from to s t e ne;
              at_other = λ n h k. works.rename_other from to n s t e h k;
            })

  -- The logs after a rotation.
  record Shifted (before : LogName → Option Bytes) (s : S) : Type 0 where
    now : works.text s current ≡ some []
    newest : works.text s (backup 0) ≡ before current
    older : works.text s (backup 1) ≡ before (backup 0)
    oldest : works.text s (backup 2) ≡ or_kept (before (backup 1)) (before (backup 2))

  or_kept-none : (o : Option Bytes) → or_kept o none ≡ o
  or_kept-none none = refl
  or_kept-none (some t) = refl

  goes_on : (r : S × Bool) (go : S → S × Bool) → r.1 ≡ true → unless_failed r go ≡ go r.0
  goes_on (s, true) go h = refl
  goes_on (s, false) go h = absurd (ground (arith, h))

  move_logs-Shifted :
      (s : S) → ((move_logs os s).1 ≡ true) × Shifted (works.text s) (move_logs os s).0
  unfolding move_logs
  move_logs-Shifted s =
      let r = move_log os (backup 1) (backup 2) s in
      let q = move_log os (backup 0) (backup 1) r.0 in
      let u = move_log os current (backup 0) q.0 in
      let a = move_log-Moved (backup 1) (backup 2) s (numbers 1 2 (omega arith)) in
      let b = move_log-Moved (backup 0) (backup 1) r.0 (numbers 0 1 (omega arith)) in
      let c = move_log-Moved current (backup 0) q.0 (log_backup 0) in
      subst (λ (v : S × Bool). (v.1 ≡ true) × Shifted (works.text s) v.0)
        (sym (
          ap
            (λ v.
              unless_failed (unless_failed v (move_log os current (backup 0)))
                (os.open_file current))
            (goes_on r (move_log os (backup 0) (backup 1)) a.ok)
          ∙ ap (λ v. unless_failed v (os.open_file current))
              (goes_on q (move_log os current (backup 0)) b.ok)
          ∙ goes_on u (os.open_file current) c.ok))
        (
          works.open_ok current u.0,
          record {
            now = works.open_empty current u.0;
            newest =
                works.open_other current (backup 0) u.0 (backup_log 0)
                ∙ c.at_to
                ∙ ap (or_kept (works.text q.0 current)) b.at_from
                ∙ or_kept-none (works.text q.0 current)
                ∙ b.at_other current (log_backup 0) (log_backup 1)
                ∙ a.at_other current (log_backup 1) (log_backup 2);
            older =
                works.open_other current (backup 1) u.0 (backup_log 1)
                ∙ c.at_other (backup 1) (backup_log 1) (numbers 1 0 (omega arith))
                ∙ b.at_to
                ∙ ap (or_kept (works.text r.0 (backup 0))) a.at_from
                ∙ or_kept-none (works.text r.0 (backup 0))
                ∙ a.at_other (backup 0) (numbers 0 1 (omega arith)) (numbers 0 2 (omega arith));
            oldest =
                works.open_other current (backup 2) u.0 (backup_log 2)
                ∙ c.at_other (backup 2) (backup_log 2) (numbers 2 0 (omega arith))
                ∙ b.at_other (backup 2) (numbers 2 0 (omega arith)) (numbers 2 1 (omega arith))
                ∙ a.at_to;
          },
        )

  abbrev Rotated : (before : S) → RotateWriter S × Bool → Type 0
  Rotated before r = (r.1 ≡ true) × (r.0.is_open ≡ true) × Shifted (works.text before) r.0.files

  writer-Rotated :
      (before : S) (w : RotateWriter S) (r : S × Bool)
      → r.1 ≡ true
      → Shifted (works.text before) r.0
      → Rotated before (record w { is_open = r.1; files = r.0 }, r.1)
  writer-Rotated before w r ok h = (ok, ok, h)

  rotate-Rotated : (w : RotateWriter S) → Rotated w.files (rotate os w)
  unfolding rotate
  rotate-Rotated w = by_open w.is_open
    where
      logs : (s : S) → Shifted (works.text s) (move_logs os s).0
      logs s = (move_logs-Shifted s).1

      by_open :
          (b : Bool)
          → let r =
              unless_failed (if b then os.close w.files else (w.files, true)) (move_logs os) in
            Rotated w.files (record w { is_open = r.1; files = r.0 }, r.1)
      by_open false =
          writer-Rotated w.files w (move_logs os w.files) (move_logs-Shifted w.files).0
            (logs w.files)
      by_open true =
          subst (λ (r : S × Bool). Rotated w.files (record w { is_open = r.1; files = r.0 }, r.1))
            (sym (goes_on (os.close w.files) (move_logs os) (works.close_ok w.files)))
            (writer-Rotated w.files w (move_logs os (os.close w.files).0)
              (move_logs-Shifted (os.close w.files).0).0
              (let h = logs (os.close w.files).0 in
                let same = works.close_text w.files in
                record {
                  now = h.now;
                  newest = h.newest ∙ same current;
                  older = h.older ∙ same (backup 0);
                  oldest =
                      h.oldest
                      ∙ ap (λ o. or_kept o (works.text (os.close w.files).0 (backup 2)))
                          (same (backup 1))
                      ∙ ap (or_kept (works.text w.files (backup 1))) (same (backup 2));
                }))

  -- The logs after a write: of a log `t` that had grown over its limit, or had not.
  abbrev pub Written :
      Bool → Bytes → Bytes → (LogName → Option Bytes) → (LogName → Option Bytes) → Type 0
  Written true t output before after =
      (after current ≡ some output)
      × (after (backup 0) ≡ some t)
      × (after (backup 1) ≡ before (backup 0))
      × (after (backup 2) ≡ or_kept (before (backup 1)) (before (backup 2)))
  Written false t output before after =
      (after current ≡ some (t ++ output)) × ((i : ℕ) → after (backup i) ≡ before (backup i))

  -- On a disk on which nothing fails, a write to an open log goes through and leaves it open. If
  -- the log was over its limit, then it holds the output alone, the old log is the first backup,
  -- and the backups move_log on by one, of which the last is lost; else the output stands behind the
  -- log and the backups are as before.
  pub write-Written :
      (output t : Bytes) (w : RotateWriter S)
      → w.is_open ≡ true
      → works.text w.files current ≡ some t
      → ((write os output w).1 ≡ true)
        × ((write os output w).0.is_open ≡ true)
        × Written
            (ltb_ℤ w.max_log_size (pos (length t)))
            t
            output
            (works.text w.files)
            (works.text (write os output w).0.files)
  unfolding write
  write-Written output t w open_log at =
      subst (λ o. Goes (ltb_ℤ w.max_log_size (pos (length t))) (write_to (rotated os o w)))
        (sym (works.stat_size current w.files ∙ ap size_of at))
        (by_limit (ltb_ℤ w.max_log_size (pos (length t))))
    where
      write_to : RotateWriter S → RotateWriter S × Bool
      write_to v =
          let (s, ok) = os.write_file output v.files in
          if v.is_open then (record v { files = s }, ok) else (v, false)

      Goes : Bool → RotateWriter S × Bool → Type 0
      Goes b r =
          (r.1 ≡ true)
          × (r.0.is_open ≡ true)
          × Written b t output (works.text w.files) (works.text r.0.files)

      opened :
          (b : Bool) (v : RotateWriter S)
          → v.is_open ≡ true
          → Written b t output (works.text w.files) (works.text (os.write_file output v.files).0)
          → Goes b (write_to v)
      opened b v h written =
          subst
            (λ c. Goes b (
              if c
              then (
                record v { files = (os.write_file output v.files).0 },
                (os.write_file output v.files).1,
              )
              else (v, false)))
            (sym h) (works.write_ok output v.files, h, written)

      by_limit : (b : Bool) → Goes b (write_to (if b then (rotate os w).0 else w))
      by_limit true =
          let (ok, still, logs) = rotate-Rotated w in
          let v = (rotate os w).0 in
          opened true v still (
            works.write_current output [] v.files logs.now,
            works.write_other output v.files (backup 0) (backup_log 0) ∙ logs.newest ∙ at,
            works.write_other output v.files (backup 1) (backup_log 1) ∙ logs.older,
            works.write_other output v.files (backup 2) (backup_log 2) ∙ logs.oldest,
          )
      by_limit false = opened false w open_log (
        works.write_current output t w.files at,
        λ i. works.write_other output w.files (backup i) (backup_log i),
      )

  -- A log that could not be opened again is lost: while there is no file, every write fails.
  write_closed :
      (output : Bytes) (w : RotateWriter S)
      → w.is_open ≡ false
      → works.text w.files current ≡ none
      → write os output w ≡ (w, false)
  unfolding write
  write_closed output w closed gone =
      ap
        (λ o.
          let v = rotated os o w in
          let (s, ok) = os.write_file output v.files in
          if v.is_open then (record v { files = s }, ok) else (v, false))
        (works.stat_size current w.files ∙ ap size_of gone)
      ∙ ap
          (λ b.
            if b
            then (
              record w { files = (os.write_file output w.files).0 },
              (os.write_file output w.files).1,
            )
            else (w, false))
          closed
