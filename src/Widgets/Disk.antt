-- ===== src/Widgets/Disk.antt =====
-- `DiskWidget` of widgets/disk.go: which partitions it keeps, and its rows. What `Partitions`
-- returns is an argument; `none` is its error. `Usage`, `IOCounters`, the sort of texts and the
-- formats of `float64` values are parameters. `uint64`s wrap around at 2 ^ 64. A map is the list of
-- its entries.
pub mod Kept
mod Tests
use gotop.Prelude.{
  ℕ, zero, suc, ◌+◌, ◌-◌, ◌%◌, ◌^◌, Bool, true, false, not, ◌&&◌, ◌||◌, List, [], ◌∷◌, ◌++◌, Option,
  none, some, if◌then◌else◌, ◌==◌, Bytes, codes, beq, length, map, itoa, pos,
}
use gotop.Prelude.Maps.{Map, lookup, insert, delete}
use gotop.Prelude.Strings.{has_prefix}

pub record Partition : Type 0 where
  pub device : Bytes
  pub mount_point : Bytes
  pub bytes_read : ℕ
  pub bytes_written : ℕ
  pub bytes_read_recently : Bytes
  pub bytes_written_recently : Bytes
  pub used_percent : ℕ
  pub free : Bytes

-- `PartitionStat`, and what the code uses of `UsageStat` and `IOCountersStat`: of the use, the
-- percentage as it is rounded to a `uint32`, and the number of free bytes.
pub record Listed : Type 0 where
  pub device : Bytes
  pub mount_point : Bytes

pub record Usage : Type 0 where
  pub percent : ℕ
  pub free : ℕ

pub record Io : Type 0 where
  pub read : ℕ
  pub written : ℕ

-- `free_text n` and `bytes_text n` are `n` in the unit of `ConvertBytes`, rounded.
pub record System : Type 0 where
  pub usage : Bytes → Option Usage
  pub io_counters : Bytes → Option (Map Io)
  pub free_text : ℕ → Bytes
  pub bytes_text : ℕ → Bytes
  pub sort : List Bytes → List Bytes

-- Loop devices and the file systems of containers.
unfoldable pub is_hidden : Listed → Bool
is_hidden p =
    has_prefix p.device (codes "/dev/loop") || has_prefix p.mount_point (codes "/var/lib/docker/")

abbrev pub fresh : Listed → Partition
fresh p = record {
  device = p.device;
  mount_point = p.mount_point;
  bytes_read = 0;
  bytes_written = 0;
  bytes_read_recently = [];
  bytes_written_recently = [];
  used_percent = 0;
  free = [];
}

abbrev pub is_some : {V : Type 0} → Option V → Bool
is_some none = false
is_some (some v) = true

abbrev pub add_one : Listed → Map Partition → Map Partition
add_one p m = if is_hidden p || is_some (lookup p.device m) then m else insert p.device (fresh p) m

-- The loop that adds what is new.
unfoldable pub add_new : List Listed → Map Partition → Map Partition
add_new [] m = m
add_new (p ∷ ps) m = add_new ps (add_one p m)

unfoldable pub is_listed : Bytes → List Listed → Bool
is_listed device [] = false
is_listed device (p ∷ ps) = beq device p.device || is_listed device ps

-- The loops that delete what is listed no more.
unfoldable pub delete_gone : List Listed → Map Partition → Map Partition
delete_gone ps [] = []
delete_gone ps ((device, p) ∷ m) =
    let rest = delete_gone ps m in if is_listed device ps then (device, p) ∷ rest else rest

-- `strings.Replace(s, old, "", -1)`; the number counts the bytes of a match that are passed over.
unfoldable pub remove_all : Bytes → ℕ → Bytes → Bytes
remove_all old k [] = []
remove_all old (suc k) (c ∷ s) = remove_all old k s
remove_all old zero (c ∷ s) =
    let passed = remove_all old (length old - 1) s in
    let kept = remove_all old zero s in if has_prefix (c ∷ s) old then passed else c ∷ kept

module _ (sys : System) where
  abbrev or_zero : Option Io → Io
  or_zero none = record { read = 0; written = 0 }
  or_zero (some io) = io

  -- The first update shows no traffic.
  abbrev count_io : Io → Partition → Partition
  count_io io p =
      let first = p.bytes_read == 0 in
      record p {
        bytes_read_recently =
            if first
            then codes "0B"
            else sys.bytes_text ((io.read + 2 ^ 64 - p.bytes_read) % 2 ^ 64);
        bytes_written_recently =
            if first
            then codes "0B"
            else sys.bytes_text ((io.written + 2 ^ 64 - p.bytes_written) % 2 ^ 64);
        bytes_read = io.read;
        bytes_written = io.written;
      }

  abbrev with_io : Option (Map Io) → Partition → Partition
  with_io none p = p
  with_io (some counters) p =
      count_io (or_zero (lookup (remove_all (codes "/dev/") 0 p.device) counters)) p

  abbrev with_usage : Option Usage → Partition → Partition
  with_usage none p = p
  with_usage (some u) p =
      with_io (sys.io_counters p.device)
        (record p { used_percent = u.percent; free = sys.free_text u.free })

  unfoldable pub refresh_one : Partition → Partition
  refresh_one p = with_usage (sys.usage p.mount_point) p

  unfoldable pub refresh_all : Map Partition → Map Partition
  refresh_all [] = []
  refresh_all ((device, p) ∷ m) = (device, refresh_one p) ∷ refresh_all m

  abbrev pub row_of : Partition → List Bytes
  row_of p =
      remove_all (codes "mapper/") 0 (remove_all (codes "/dev/") 0 p.device)
      ∷ p.mount_point
      ∷ (itoa (pos p.used_percent) ++ codes "%")
      ∷ p.free
      ∷ p.bytes_read_recently
      ∷ p.bytes_written_recently
      ∷ []

  -- The rows in the order of the keys.
  abbrev rows_of : List Bytes → Map Partition → List (List Bytes)
  rows_of [] m = []
  rows_of (key ∷ keys) m =
      let rest = rows_of keys m in elim (lookup key m) [ none ↦ rest | some p ↦ row_of p ∷ rest ]

  -- The partitions and the rows after an update.
  unfoldable pub update :
      Option (List Listed) → Map Partition × List (List Bytes) → Map Partition × List (List Bytes)
  unfolding add_new delete_gone refresh_all
  update none disk = disk
  update (some ps) (m, rows) =
      let m' = refresh_all (delete_gone ps (add_new ps m)) in
      (m', rows_of (sys.sort (map (λ e. e.0) m')) m')
