-- ===== src/Logging.antt =====
-- `RotateWriter` of logging/logging.go. The log has the name `current`, the older logs are
-- `backup 0`, `backup 1` and `backup 2`. The files are a state of type `S`; what the package `os`
-- does to them is an interface, with its laws. A Boolean says that there was no error.
pub mod Rotate
mod Tests
use gotop.Prelude.{
  ℕ, ◌+◌, ℤ, pos, ltb_ℤ, Bool, true, false, not, List, [], ◌∷◌, ◌++◌, Option, none, some,
  if◌then◌else◌, Bytes, length, ◌≡◌, ◌≢◌,
}

pub data LogName : Type 0 where
  current : LogName
  backup : ℕ → LogName

-- `os.Stat` (the size, or an error), `os.Rename`, `os.OpenFile` with `O_CREATE` and `O_TRUNC`, and
-- `Close` and `Write` of the open log.
pub record Files (S : Type 0) : Type 0 where
  pub stat : LogName → S → Option ℕ
  pub rename : LogName → LogName → S → S × Bool
  pub open_file : LogName → S → S × Bool
  pub close : S → S × Bool
  pub write_file : Bytes → S → S × Bool

-- The fields that change, and `maxLogSize`; `open` says that `fp` is not nil.
pub record RotateWriter (S : Type 0) : Type 0 where
  pub is_open : Bool
  pub max_log_size : ℤ
  pub files : S

-- The next step, unless one has failed.
abbrev pub unless_failed : {S : Type 0} → S × Bool → (S → S × Bool) → S × Bool
unless_failed (s, true) go = go s
unless_failed (s, false) go = (s, false)

module _ {S : Type 0} (os : Files S) where
  -- Renames a file that exists.
  abbrev pub rename_found : Option ℕ → LogName → LogName → S → S × Bool
  rename_found none from to s = (s, true)
  rename_found (some size) from to s = os.rename from to s

  unfoldable pub move_log : LogName → LogName → S → S × Bool
  move_log from to s = rename_found (os.stat from s) from to s

  -- `rotate`, from the renaming of the logs on.
  unfoldable pub move_logs : S → S × Bool
  unfolding move_log
  move_logs s =
      unless_failed
        (unless_failed
          (unless_failed (move_log (backup 1) (backup 2) s) (move_log (backup 0) (backup 1)))
          (move_log current (backup 0)))
        (os.open_file current)

  -- `fp` is nil until the last step has succeeded.
  unfoldable pub rotate : RotateWriter S → RotateWriter S × Bool
  unfolding move_logs
  rotate w =
      let closed = if w.is_open then os.close w.files else (w.files, true) in
      let (s, ok) = unless_failed closed move_logs in (record w { is_open = ok; files = s }, ok)

  -- The writer for the write: rotated, if the log has grown over its limit; an error is ignored.
  abbrev pub rotated : Option ℕ → RotateWriter S → RotateWriter S
  rotated none w = w
  rotated (some size) w = if ltb_ℤ w.max_log_size (pos size) then (rotate w).0 else w

  unfoldable pub write : Bytes → RotateWriter S → RotateWriter S × Bool
  unfolding rotate
  write output w =
      let v = rotated (os.stat current w.files) w in
      let (s, ok) = os.write_file output v.files in
      if v.is_open then (record v { files = s }, ok) else (v, false)

  -- `New`, once the directory for the log is there; `none` is an error.
  abbrev pub if_open : RotateWriter S × Bool → Option (RotateWriter S)
  if_open (w, true) = some w
  if_open (w, false) = none

  unfoldable pub new_writer : ℤ → S → Option (RotateWriter S)
  unfolding rotate
  new_writer max_log_size s =
      if_open (rotate (record { is_open = false; max_log_size = max_log_size; files = s }))
