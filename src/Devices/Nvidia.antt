-- ===== src/Devices/Nvidia.antt =====
-- devices/nvidia.go: what the tool nvidia-smi prints, and the caches that it fills. The records that
-- Go's CSV reader returns are an argument; `none` is an error of the tool or of the reader. A map is
-- the list of its entries. `float64` is a parameter. The lock and the timer are left out.
pub mod Rows
mod Tests
use gotop.Prelude.{
  ℕ, ◌*◌, ◌%◌, ◌^◌, ◌-◌, ◌+◌, suc, ℤ, pos, negsuc, Bool, true, false, List, [], ◌∷◌, ◌++◌, Option,
  none, some, ◌>>=◌, if◌then◌else◌, Bytes, codes, beq, atoi, atoi_value, get_elem?,
}
use gotop.Prelude.Maps.{Map, lookup, insert}
use gotop.Devices.Remote.{MemoryInfo, copy_into}

-- The caches. An error is the text that Go could not read, or `none` for an error of the tool.
pub record Nvidia (F : Type 0) : Type 0 where
  pub temps : Map ℤ
  pub mems : Map (MemoryInfo F)
  pub cpus : Map ℤ
  pub errors : Map (Option Bytes)

-- `uint64` of an `int`
abbrev pub uint64 : ℤ → ℕ
uint64 (pos n) = n % 2 ^ 64
uint64 (negsuc n) = 2 ^ 64 - 1 - n % 2 ^ 64

abbrev pub mebibytes : ℤ → ℕ
mebibytes z = 1048576 * uint64 z % 2 ^ 64

-- `_errors[name] = err`, if there is one.
abbrev pub note_error : Bytes → Bytes → Map (Option Bytes) → Map (Option Bytes)
note_error name text errors = elim (atoi text) [
  | none ↦ insert name (some text) errors
  | some z ↦ errors
]

module _ {F : Type 0} (percent : ℤ → ℤ → F) where
  -- One row: the name, the index, and the four numbers.
  abbrev pub put_row : Bytes → Bytes → Bytes → Bytes → Bytes → Nvidia F → Nvidia F
  put_row name temp cpu total used n = record {
    temps = insert name (atoi_value temp) n.temps;
    mems =
        insert name
          (record {
            total = mebibytes (atoi_value total);
            used = mebibytes (atoi_value used);
            used_percent = percent (atoi_value used) (atoi_value total);
          })
          n.mems;
    cpus = insert name (atoi_value cpu) n.cpus;
    errors =
        note_error name used
          (note_error name total (note_error name cpu (note_error name temp n.errors)));
  }

  -- `none` is an index out of range.
  unfoldable pub read_row : List Bytes → Nvidia F → Option (Nvidia F)
  read_row row n = do
    name ← get_elem? row 0
    index ← get_elem? row 1
    temp ← get_elem? row 2
    cpu ← get_elem? row 3
    total ← get_elem? row 4
    used ← get_elem? row 5
    some (put_row (name ++ codes "." ++ index) temp cpu total used n)

  unfoldable pub read_rows : List (List Bytes) → Nvidia F → Option (Nvidia F)
  unfolding read_row
  read_rows [] n = some n
  read_rows (row ∷ rows) n = read_row row n >>= read_rows rows

  unfoldable pub update_nvidia : Option (List (List Bytes)) → Nvidia F → Option (Nvidia F)
  unfolding read_rows
  update_nvidia none n = some (record n { errors = insert (codes "nvidia") none n.errors })
  update_nvidia (some records) n = read_rows records n

module _ {F : Type 0} where
  -- The functions that are registered: the map that is filled, and the errors that are returned.
  unfoldable pub update_nvidia_temp : Nvidia F → Map ℤ → Map ℤ × Map (Option Bytes)
  unfolding copy_into
  update_nvidia_temp n temps = (copy_into n.temps temps, n.errors)

  unfoldable pub update_nvidia_mem :
      Nvidia F → Map (MemoryInfo F) → Map (MemoryInfo F) × Map (Option Bytes)
  unfolding copy_into
  update_nvidia_mem n mems = (copy_into n.mems mems, n.errors)

  unfoldable pub update_nvidia_usage : Nvidia F → Map ℤ → Map ℤ × Map (Option Bytes)
  unfolding copy_into
  update_nvidia_usage n cpus = (copy_into n.cpus cpus, n.errors)

-- `startNVidia`: nothing is started, an error, or the refresh period and the caches after the first
-- update. The arguments are whether the tool runs, and its first records.
pub data Started (F : Type 0) : Type 0 where
  idle failed panicked : Started F
  polls : ℤ → Nvidia F → Started F

abbrev pub or_no_value : Option Bytes → Bytes
or_no_value none = []
or_no_value (some v) = v

module _ {F : Type 0} (percent : ℤ → ℤ → F) (parse_duration : Bytes → Option ℤ) where
  -- `nvidia-refresh`, one second if there is none.
  abbrev pub refresh_of : Option Bytes → Option ℤ
  refresh_of none = some (pos 1000000000)
  refresh_of (some v) = parse_duration v

  abbrev pub begin_polls : Option ℤ → Option (Nvidia F) → Started F
  begin_polls none n = failed
  begin_polls (some refresh) none = panicked
  begin_polls (some refresh) (some n) = polls refresh n

  unfoldable pub start_nvidia : Bool → Option (List (List Bytes)) → Map Bytes → Started F
  unfolding update_nvidia
  start_nvidia runs records vars =
      if beq (or_no_value (lookup (codes "nvidia") vars)) (codes "true")
      then if runs
        then begin_polls (refresh_of (lookup (codes "nvidia-refresh") vars)) (
            update_nvidia percent records
              (record { temps = []; mems = []; cpus = []; errors = [] }))
        else failed
      else idle
