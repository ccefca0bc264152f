-- ===== src/Config.antt =====
-- The configuration file of config.go: `load` and `marshal`. The text is ASCII. The lookup of a
-- colour scheme by its name and Go's `time.ParseDuration` are parameters. A duration is its
-- number of nanoseconds. `ConfigDir`, `ConfigFile` and the translations are not part of the state.
-- A line may be of any length, though `bufio.Scanner` stops at a line of 64 kB.
pub mod Marshal
pub mod RoundTrip
mod Options
pub mod Errors
pub mod Reload
mod Tests
use gotop.Prelude.{
  ℕ, ℤ, pos, Bool, true, false, ◌||◌, List, [], ◌∷◌, Option, none, some, if◌then◌else◌, ◌==◌, Bytes,
  codes, beq, atoi,
}
use gotop.Prelude.Maps.{Map, insert}
use gotop.Prelude.Strings.{split, lines, trim_space, to_lower}

pub record Config (Scheme : Type 0) : Type 0 where
  pub graph_horizontal_scale : ℤ
  pub help_visible : Bool
  pub colorscheme : Scheme
  pub update_interval : ℤ
  pub average_load : Bool
  pub percpu_load : Bool
  pub statusbar : Bool
  pub temp_scale : ℕ
  pub net_interface : Bytes
  pub layout : Bytes
  pub max_log_size : ℤ
  pub export_port : Bytes
  pub mbps : Bool
  pub temps : List Bytes
  pub test : Bool
  pub extension_vars : Map Bytes
  pub nvidia : Bool
  pub nvidia_refresh : ℤ

-- `strconv.ParseBool`
unfoldable pub parse_bool : Bytes → Option Bool
parse_bool s =
    if beq s (codes "1")
      || (beq s (codes "t")
          || (beq s (codes "T")
              || (beq s (codes "true") || (beq s (codes "TRUE") || beq s (codes "True")))))
    then some true
    else if beq s (codes "0")
        || (beq s (codes "f")
            || (beq s (codes "F")
                || (beq s (codes "false") || (beq s (codes "FALSE") || beq s (codes "False")))))
    then some false
    else none

-- The keys of the switch in `load`.
pub data Key : Type 0 where
  deprecated graph_scale help scheme interval average percpu temp bar net : Key
  layout_name log_size export mbps_flag temperatures nvidia_flag refresh : Key
  extension : Key

unfoldable pub key_of : Bytes → Key
key_of k =
    if beq k (codes "configdir") || (beq k (codes "logdir") || beq k (codes "logfile"))
    then deprecated
    else if beq k (codes "graphhorizontalscale")
    then graph_scale
    else if beq k (codes "helpvisible")
    then help
    else if beq k (codes "colorscheme")
    then scheme
    else if beq k (codes "updateinterval")
    then interval
    else if beq k (codes "averagecpu")
    then average
    else if beq k (codes "percpuload")
    then percpu
    else if beq k (codes "tempscale")
    then temp
    else if beq k (codes "statusbar")
    then bar
    else if beq k (codes "netinterface")
    then net
    else if beq k (codes "layout")
    then layout_name
    else if beq k (codes "maxlogsize")
    then log_size
    else if beq k (codes "metricsexportport")
    then export
    else if beq k (codes "mbps")
    then mbps_flag
    else if beq k (codes "temperatures")
    then temperatures
    else if beq k (codes "nvidia")
    then nvidia_flag
    else if beq k (codes "nvidiarefresh")
    then refresh
    else extension

-- The error that `load` returns; the configuration keeps what was set before it.
pub data LoadError : Type 0 where
  syntax bad_value bad_scheme bad_temp_scale : LoadError

-- `none` is the panic of `l[0]` on a blank line.
pub data Loaded (Scheme : Type 0) : Type 0 where
  ok : Config Scheme → Loaded Scheme
  failed : Config Scheme → LoadError → Loaded Scheme
  panicked : Loaded Scheme

abbrev pub or_bad {ℓ} :
    {Scheme : Type 0} {A : Type ℓ} → Config Scheme → Option A → (A → Config Scheme) → Loaded Scheme
or_bad conf none f = failed conf bad_value
or_bad conf (some a) f = ok (f a)

module _ {Scheme : Type 0} (from_name : Bytes → Option Scheme)
    (parse_duration : Bytes → Option ℤ) where
  -- One case of the switch: the key, the key's text and the value.
  unfoldable pub set_key : Key → Bytes → Bytes → Config Scheme → Loaded Scheme
  unfolding parse_bool
  set_key extension key v conf =
      ok (record conf { extension_vars = insert key v conf.extension_vars })
  set_key deprecated key v conf = ok conf
  set_key graph_scale key v conf =
      or_bad conf (atoi v) (λ n. record conf { graph_horizontal_scale = n })
  set_key help key v conf = or_bad conf (parse_bool v) (λ b. record conf { help_visible = b })
  set_key scheme key v conf = elim (from_name v) [
    | none ↦ failed conf bad_scheme
    | some cs ↦ ok (record conf { colorscheme = cs })
  ]
  set_key interval key v conf = or_bad conf (atoi v) (λ n. record conf { update_interval = n })
  set_key average key v conf = or_bad conf (parse_bool v) (λ b. record conf { average_load = b })
  set_key percpu key v conf = or_bad conf (parse_bool v) (λ b. record conf { percpu_load = b })
  set_key temp key v conf =
      if beq v (codes "C")
      then ok (record conf { temp_scale = b'C' })
      else if beq v (codes "F")
      then ok (record conf { temp_scale = b'F' })
      else failed (record conf { temp_scale = b'C' }) bad_temp_scale
  set_key bar key v conf = or_bad conf (parse_bool v) (λ b. record conf { statusbar = b })
  set_key net key v conf = ok (record conf { net_interface = v })
  set_key layout_name key v conf = ok (record conf { layout = v })
  set_key log_size key v conf = or_bad conf (atoi v) (λ n. record conf { max_log_size = n })
  set_key export key v conf = ok (record conf { export_port = v })
  set_key mbps_flag key v conf = ok (record conf { mbps = true })
  set_key temperatures key v conf = ok (record conf { temps = split v b',' })
  set_key nvidia_flag key v conf = or_bad conf (parse_bool v) (λ b. record conf { nvidia = b })
  set_key refresh key v conf =
      or_bad conf (parse_duration v) (λ d. record conf { nvidia_refresh = d })

  -- The parts of a line at '='; there have to be two.
  abbrev pub set_parts : List Bytes → Config Scheme → Loaded Scheme
  set_parts (k ∷ v ∷ []) conf = let key = to_lower k in set_key (key_of key) key v conf
  set_parts _ conf = failed conf syntax

  -- A trimmed line. One that starts with '#' is passed over.
  unfoldable pub load_line : Bytes → Config Scheme → Loaded Scheme
  load_line [] conf = panicked
  load_line (c ∷ l) conf = if c == b'#' then ok conf else set_parts (split (c ∷ l) b'=') conf

  unfoldable pub load_lines : List Bytes → Config Scheme → Loaded Scheme
  load_lines [] conf = ok conf
  load_lines (l ∷ ls) conf = elim (load_line (trim_space l) conf) [
    | ok conf' ↦ load_lines ls conf'
    | failed conf' e ↦ failed conf' e
    | panicked ↦ panicked
  ]

  unfoldable pub load : Bytes → Config Scheme → Loaded Scheme
  unfolding load_lines load_line set_key key_of
  load text conf = load_lines (lines text) conf
