-- ===== src/Start/Tests.antt =====
-- Runs of the start of cmd/gotop/main.go.
use gotop.Prelude.{
  ℕ, pos, true, false, [], ◌∷◌, Option, none, some, Bytes, codes, All, ◌≡◌, refl, arith, itoa, atoi,
  atoi-itoa,
}
use gotop.Termui.Geometry.{Rect}
use gotop.Layout.Parser.{parse_layout}
use gotop.Layout.Rows.Progress.{SpansOk}
use gotop.Layout.Widgets.{Colorscheme}
use gotop.Widgets.Proc.{Platform}
use gotop.Start.{parsed, contents, Machine, new_config, parse_args}
use gotop.Start.Flags.{reset, parse_args-reset}

abbrev sys : Platform ℕ
sys = record {
  plus = λ a b. a;
  over = λ a n. a;
  below = λ a b. false;
  print = λ x. [];
  sort = λ lt ps. ps;
  walk = λ ps. ps;
  tr = λ s. s;
}

abbrev scheme : Colorscheme
scheme = record {
  border_label = pos 7;
  cpu_lines = pos 4 ∷ pos 3 ∷ [];
  batt_lines = pos 4 ∷ [];
  mem_lines = pos 5 ∷ [];
  proc_cursor = pos 4;
  sparklines = (pos 4, pos 5);
  temp_low = pos 2;
  temp_high = pos 1;
}

-- A machine with one colour scheme, and a file that sets the layout.
abbrev machine : Machine
machine = record {
  goopt = λ a. a;
  print_duration = itoa;
  parse_duration = atoi;
  scheme_name = λ s. codes "default";
  from_name = λ s. some scheme;
  default_scheme = scheme;
  speaks = true;
  file = contents (codes "layout=-");
  walks_dicts = true;
  writes = true;
  opens_log = true;
  opens_ui = true;
  starts_devices = λ vars. true;
  draws_first = λ bar grid. true;
  stdin = codes "cpu\nprocs";
  find = λ s. none;
  width = pos 80;
  height = pos 24;
}

abbrev block : Rect
block = record { min_x = pos 0; min_y = pos 0; max_x = pos 0; max_y = pos 0 }

second_rate : atoi (itoa (pos 1000000000)) ≡ some (pos 1000000000)
second_rate = atoi-itoa (pos 1000000000) (omega arith)

parse_args-reset_example :
    parse_args machine (new_config scheme) ≡ parsed (reset (new_config scheme))
unfolding new_config
parse_args-reset_example =
    parse_args-reset machine (new_config scheme) (λ a. refl) second_rate refl refl

abbrev Small : Option Bytes → Type 0
Small none = Unit
Small (some text) = All SpansOk (parse_layout text)
