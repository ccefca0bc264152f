-- ===== src/Config/Tests.antt =====
-- Runs of `load` and `marshal` of config.go, with two colour schemes.
use gotop.Prelude.{
  ℤ, pos, Bool, true, false, [], ◌∷◌, Option, none, some, if◌then◌else◌, Bytes, codes, beq, ◌≡◌,
  ◌≢◌, refl, inr, All, arith,
}
use gotop.Prelude.Maps.{insert}
use gotop.Prelude.Strings.{split, lines, trim_space, to_lower, is_clean, unlines}
use gotop.Config.{Config, LoadError, ok, failed, panicked, load}
use gotop.Config.Marshal.{marshal}
use gotop.Prelude.{itoa, length, ◌<◌, ◌^◌}
use gotop.Config.Marshal.{marshal_lines}
use gotop.Config.Reload.{Writable, reloaded, load-marshal}
use gotop.Config.Errors.{load-ne-panicked}

abbrev from_name : Bytes → Option Bool
from_name s =
    if beq s (codes "default")
    then some true
    else if beq s (codes "solarized")
    then some false
    else none

abbrev scheme_name : Bool → Bytes
scheme_name true = codes "default"
scheme_name false = codes "solarized"

abbrev parse_duration : Bytes → Option ℤ
parse_duration s = if beq s (codes "1s") then some (pos 1000000000) else none

abbrev start : Config Bool
start = record {
  graph_horizontal_scale = pos 7;
  help_visible = false;
  colorscheme = true;
  update_interval = pos 1000000000;
  average_load = false;
  percpu_load = true;
  statusbar = false;
  temp_scale = b'C';
  net_interface = codes "all";
  layout = codes "default";
  max_log_size = pos 5000000;
  export_port = [];
  mbps = false;
  temps = [];
  test = false;
  extension_vars = [];
  nvidia = false;
  nvidia_refresh = pos 60000000000;
}

abbrev changed : Config Bool
changed = record start {
  colorscheme = false;
  temps = codes "cpu0" ∷ codes "cpu1" ∷ [];
  temp_scale = b'F';
  export_port = codes ":8080";
}

abbrev file : Bytes
file = unlines (
    codes "# a comment"
    ∷ codes "  HelpVisible=true"
    ∷ codes "colorscheme=solarized"
    ∷ codes "remote-url=http"
    ∷ [])

load-file :
    load from_name parse_duration file start
    ≡ ok (record start {
      help_visible = true;
      colorscheme = false;
      extension_vars = (codes "remote-url", codes "http") ∷ [];
    })
unfolding load lines trim_space split beq to_lower insert
load-file = refl

-- A blank line panics; a line without a '=', or with two, is an error.
load_blank : load from_name parse_duration (codes "\nmbps=true") start ≡ panicked
unfolding load lines trim_space
load_blank = refl

load_two_signs :
    load from_name parse_duration (codes "layout=a=b") start ≡ failed start LoadError.syntax
unfolding load lines trim_space split
load_two_signs = refl

short_lines : All (λ l. length l < 2 ^ 16) (marshal_lines scheme_name changed)
unfolding marshal_lines itoa gotop.Prelude.Strings.join
short_lines = ground arith

changed-Writable : Writable from_name scheme_name changed
unfolding is_clean beq
changed-Writable = record {
  scale = ground arith;
  interval = ground arith;
  log_size = ground arith;
  unit = inr refl;
  scheme = refl;
  scheme_text = refl;
  net = refl;
  layout_text = refl;
  export = refl;
  sensors = (refl, (refl, tt));
  short = short_lines;
  commas = ((refl, (refl, (refl, (refl, tt)))), ((refl, (refl, (refl, (refl, tt)))), tt));
}

load-marshal_example :
    load from_name parse_duration (marshal scheme_name changed) start ≡ ok (reloaded changed start)
load-marshal_example =
    load-marshal from_name scheme_name parse_duration changed start changed-Writable

load-ne-panicked_example : load from_name parse_duration (codes "mbps=x\nlayout") start ≢ panicked
load-ne-panicked_example =
    load-ne-panicked from_name parse_duration (codes "mbps=x\nlayout") start no_blank
  where
    no_blank : All (λ l. trim_space l ≢ []) (lines (codes "mbps=x\nlayout"))
    no_blank = unfold lines trim_space in (ground arith, (ground arith, tt))
