-- ===== src/Devices/Remote.antt =====
-- devices/remote.go: the metrics that another gotop exports, and the options that name it. The
-- text is ASCII. `float64` and its parsing are parameters. A map is the list of its entries in
-- the order in which Go walks it. The requests over the network and the lock are left out.
pub mod Metrics
pub mod Options
mod Tests
use gotop.Prelude.{
  ℕ, ℤ, pos, ◌*ℤ◌, ◌+◌, ltb, Bool, true, false, List, [], ◌∷◌, ◌++◌, Option, none, some, ◌>>=◌,
  if◌then◌else◌, ◌==◌, wrap_int, Bytes, codes, beq, atoi, length, take, drop, get_elem?,
}
use gotop.Prelude.Maps.{Map, lookup, insert}
use gotop.Prelude.Strings.{split, lines, has_prefix}

pub record MemoryInfo (F : Type 0) : Type 0 where
  pub total : ℕ
  pub used : ℕ
  pub used_percent : F

-- `_cpuData` and its kin.
pub record Cache (F : Type 0) : Type 0 where
  pub cpu_data : Map ℤ
  pub temp_data : Map ℤ
  pub net_data : Map F
  pub disk_data : Map F
  pub mem_data : Map (MemoryInfo F)

-- What follows the name in a line, if it has two columns: the first and the second.
abbrev pub columns : List Bytes → Option (Bytes × Bytes)
columns (name ∷ val ∷ _) = some (name, val)
columns _ = none

module _ {V : Type 0} (parse : Bytes → Option V) where
  abbrev pub store_value : Bytes → Bytes → Option V → Map V → Map V
  store_value host name none cache = cache
  store_value host name (some val) cache = insert (host ++ name) val cache

  abbrev pub store : Bytes → Option (Bytes × Bytes) → Map V → Map V
  store host none cache = cache
  store host (some (name, val)) cache = store_value host name (parse val) cache

-- A bad line is logged and passed over.
unfoldable pub proc_int : Bytes → Bytes → Map ℤ → Map ℤ
proc_int host sub cache = store atoi host (columns (split sub b' ')) cache

-- `s[n:]`
unfoldable pub slice_from : ℕ → Bytes → Option Bytes
slice_from n s = if ltb (length s) n then none else some (drop n s)

module _ {F : Type 0} (parse_float : Bytes → Option F) (hundred_over : F → ℕ) where
  abbrev pub memory : Bytes → Option (MemoryInfo F)
  memory val = elim (parse_float val) [
    | none ↦ none
    | some x ↦ some (record { total = 100; used = hundred_over x; used_percent = x })
  ]

  -- The switch on what follows "gotop_"; `none` is a slice out of range.
  unfoldable pub metric : Bytes → Bytes → Cache F → Option (Cache F)
  unfolding proc_int slice_from
  metric host sub cache =
      if has_prefix sub (codes "cpu_")
      then slice_from 4 sub
        >>= (λ s. some (record cache { cpu_data = proc_int host s cache.cpu_data }))
      else if has_prefix sub (codes "temp_")
      then slice_from 5 sub
        >>= (λ s. some (record cache { temp_data = proc_int host s cache.temp_data }))
      else if has_prefix sub (codes "net_")
      then slice_from 5 sub >>= (λ s. some (record cache {
        net_data = store parse_float host (columns (split s b' ')) cache.net_data;
      }))
      else if has_prefix sub (codes "disk_")
      then slice_from 5 sub >>= (λ s. some (record cache {
        disk_data = store parse_float host (columns (split s b' ')) cache.disk_data;
      }))
      else if has_prefix sub (codes "memory_")
      then slice_from 7 sub >>= (λ s.
        some
          (record cache { mem_data = store memory host (columns (split s b' ')) cache.mem_data }))
      else some cache

  -- One line; `none` is the panic of `line[0]` or of `line[0:6]`.
  unfoldable pub process_line : Bytes → Bytes → Cache F → Option (Cache F)
  unfolding metric slice_from
  process_line host [] cache = none
  process_line host (c ∷ line) cache =
      if c == b'#'
      then some cache
      else if ltb (length (c ∷ line)) 6
      then none
      else if beq (take 6 (c ∷ line)) (codes "gotop_")
      then slice_from 6 (c ∷ line) >>= (λ sub. metric host sub cache)
      else some cache

  unfoldable pub process_lines : Bytes → List Bytes → Cache F → Option (Cache F)
  process_lines host [] cache = some cache
  process_lines host (l ∷ ls) cache = process_line host l cache >>= process_lines host ls

  unfoldable pub process : Bytes → Bytes → Cache F → Option (Cache F)
  unfolding process_lines process_line metric
  process host text cache = process_lines host (lines text) cache

-- `for name, val := range data { out[name] = val }`
unfoldable pub copy_into : {V : Type 0} → Map V → Map V → Map V
copy_into [] out = out
copy_into ((name, val) ∷ cache) out = copy_into cache (insert name val out)

unfoldable pub update_temp : {F : Type 0} → Cache F → Map ℤ → Map ℤ
unfolding copy_into
update_temp cache temps = copy_into cache.temp_data temps

unfoldable pub update_mem : {F : Type 0} → Cache F → Map (MemoryInfo F) → Map (MemoryInfo F)
unfolding copy_into
update_mem cache mems = copy_into cache.mem_data mems

unfoldable pub update_usage : {F : Type 0} → Cache F → Map ℤ → Map ℤ
unfolding copy_into
update_usage cache cpus = copy_into cache.cpu_data cpus

-- `refresh` is a number of nanoseconds.
pub record Remote : Type 0 where
  pub url : Bytes
  pub refresh : ℤ

abbrev known : Option Remote → Remote
known none = record { url = []; refresh = pos 0 }
known (some r) = r

abbrev set_refresh : Bytes → Option ℤ → Remote → Map Remote → Map Remote
set_refresh name none r rv = rv
set_refresh name (some sleep) r rv =
    insert name (record r { refresh = wrap_int (sleep *ℤ pos 1000000000) }) rv

abbrev pub set_option : Bytes → Bytes → Bytes → Map Remote → Map Remote
set_option name option value rv =
    let r = known (lookup name rv) in
    if beq option (codes "url")
    then insert name (record r { url = value }) rv
    else if beq option (codes "refresh")
    then set_refresh name (atoi value) r rv
    else rv

-- One variable; `none` is the panic of `parts[1]` or of `parts[2]`.
unfoldable pub parse_var : Bytes → Bytes → Map Remote → Option (Map Remote)
parse_var key value rv =
    let parts = split key b'-' in
    if has_prefix key (codes "remote-")
    then if length parts == 2 then some rv else (do
      name ← get_elem? parts 1
      option ← get_elem? parts 2
      some (set_option name option value rv))
    else some rv

unfoldable pub parse_vars : Map Bytes → Map Remote → Option (Map Remote)
parse_vars [] rv = some rv
parse_vars ((key, value) ∷ vars) rv = parse_var key value rv >>= parse_vars vars

unfoldable pub parse_config : Map Bytes → Option (Map Remote)
unfolding parse_vars parse_var
parse_config vars = parse_vars vars []
