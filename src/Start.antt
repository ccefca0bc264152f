-- ===== src/Start.antt =====
-- The start of the program in cmd/gotop/main.go: `parseArgs`, `getLayout` and `run` up to the event
-- loop, with `NewConfig` and `Load` of config.go. The parser of the options, durations, the lookup
-- of a colour scheme, files, the terminal, `devices.Startup` and the first rendering are parameters. An outcome is an exit status, or the
-- state in which the event loop begins. What is printed is left out.

pub mod Flags
pub mod Colored
pub mod Run
mod Tests
use gotop.Prelude.{
  ℕ, ℤ, pos, ◌-ℤ◌, Bool, true, false, not, List, [], ◌∷◌, Option, none, some, ◌>>=◌, if◌then◌else◌,
  map, Bytes, codes, beq, ◌||◌,
}
use gotop.Prelude.Maps.{Map, insert}
use gotop.Prelude.Strings.{is_nil}
use gotop.Termui.Geometry.{Rect}
use gotop.Config.{Config, Loaded, load}
use gotop.Config as Config
use gotop.Layout.Parser.{parse_layout}
use gotop.Layout.Widgets.{Colorscheme, Widget, Made, Name, make_widget, MyGrid, layout}
use gotop.Widgets.Proc.{Proc, ProcWidget, Platform}
use gotop.Widgets.Proc.New.{new_proc_widget}
use gotop.EventLoop.{App}

-- What the pointers of goopt hold.
pub record Args : Type 0 where
  pub color : Bytes
  pub graph_scale : ℤ
  pub version : Bool
  pub percpu : Bool
  pub average : Bool
  pub fahrenheit : Bool
  pub statusbar : Bool
  pub rate : Bytes
  pub layout_name : Bytes
  pub net_interface : Bytes
  pub export_port : Bytes
  pub mbps : Bool
  pub test : Bool
  pub nvidia : Bool
  pub list : Bytes
  pub write_config : Bool

-- The end of the program with a status, an error, or the configuration to go on with.
pub data Parsed : Type 0 where
  quits : ℕ → Parsed
  failed : Parsed
  parsed : Config Colorscheme → Parsed

-- The configuration file: none is found, it cannot be read, or its text.
pub data File : Type 0 where
  missing unreadable : File
  contents : Bytes → File

-- What the program gets from other code and from the machine. `find` is the folder with a layout's
-- file: none, or the file's text if it can be read. `starts_devices` says that `devices.Startup`
-- returns and does not panic, with these options of the extensions; `draws_first` says it of the
-- first rendering of a grid, and of the status bar if there is one.
pub record Machine : Type 0 where
  pub goopt : Args → Args
  pub print_duration : ℤ → Bytes
  pub parse_duration : Bytes → Option ℤ
  pub scheme_name : Colorscheme → Bytes
  pub from_name : Bytes → Option Colorscheme
  pub default_scheme : Colorscheme
  pub speaks : Bool
  pub file : File
  pub walks_dicts : Bool
  pub writes : Bool
  pub opens_log : Bool
  pub opens_ui : Bool
  pub starts_devices : Map Bytes → Bool
  pub draws_first : Bool → MyGrid → Bool
  pub stdin : Bytes
  pub find : Bytes → Option (Option Bytes)
  pub width : ℤ
  pub height : ℤ

-- `NewConfig`
unfoldable pub new_config : Colorscheme → Config Colorscheme
new_config scheme = record {
  graph_horizontal_scale = pos 7;
  help_visible = false;
  colorscheme = scheme;
  update_interval = pos 1000000000;
  average_load = false;
  percpu_load = true;
  statusbar = false;
  temp_scale = b'C';
  net_interface = codes "all";
  layout = codes "default";
  max_log_size = pos 5000000;
  export_port = [];
  mbps = false;
  temps = [];
  test = false;
  extension_vars = [];
  nvidia = false;
  nvidia_refresh = pos 0;
}

-- What `Load` returns, or `none` if the file cannot be read.
unfoldable pub load_file : Machine → File → Config Colorscheme → Option (Loaded Colorscheme)
unfolding load
load_file m missing conf = some (Loaded.ok conf)
load_file m unreadable conf = none
load_file m (contents text) conf = some (load m.from_name m.parse_duration text conf)

-- The options with their defaults; a flag of goopt is false until it is given.
unfoldable pub declared : Machine → Config Colorscheme → Args
declared m conf = record {
  color = m.scheme_name conf.colorscheme;
  graph_scale = conf.graph_horizontal_scale;
  version = false;
  percpu = false;
  average = false;
  fahrenheit = false;
  statusbar = false;
  rate = m.print_duration conf.update_interval;
  layout_name = conf.layout;
  net_interface = codes "all";
  export_port = conf.export_port;
  mbps = false;
  test = false;
  nvidia = false;
  list = [];
  write_config = false;
}

-- The assignments after `goopt.Parse`.
unfoldable pub assign_args : Args → Config Colorscheme → Config Colorscheme
assign_args a conf = record conf {
  percpu_load = a.percpu;
  graph_horizontal_scale = a.graph_scale;
  average_load = a.average;
  statusbar = a.statusbar;
  layout = a.layout_name;
  net_interface = a.net_interface;
  export_port = a.export_port;
  mbps = a.mbps;
  nvidia = a.nvidia;
  test = a.test;
}

-- The names after `--list` that are printed.
abbrev pub is_list : Bytes → Bool
is_list name =
    beq name (codes "layouts")
    || (beq name (codes "colorschemes")
        || (beq name (codes "paths")
            || (beq name (codes "devices")
                || (beq name (codes "keys") || beq name (codes "widgets")))))

-- `--list`
unfoldable pub list_of : Machine → Bytes → Parsed
list_of m name =
    if is_list name
    then quits 0
    else if beq name (codes "langs")
    then if m.walks_dicts then quits 0 else failed
    else quits 1

abbrev pub set_nvidia : Config Colorscheme → Config Colorscheme
set_nvidia conf =
    if conf.nvidia
    then record conf { extension_vars = insert (codes "nvidia") (codes "true") conf.extension_vars }
    else conf

-- What follows the colour scheme.
unfoldable pub finish_args : Machine → Args → Config Colorscheme → Parsed
unfolding list_of
finish_args m a conf =
    if not (is_nil a.list)
    then list_of m a.list
    else if a.write_config
    then if m.writes then quits 0 else quits 1
    else parsed (set_nvidia conf)

abbrev pub with_scheme : Machine → Args → Option Colorscheme → Config Colorscheme → Parsed
with_scheme m a none conf = failed
with_scheme m a (some cs) conf = finish_args m a (record conf { colorscheme = cs })

abbrev pub with_rate : Machine → Args → Option ℤ → Config Colorscheme → Parsed
with_rate m a none conf = quits 1
with_rate m a (some d) conf =
    let set = record conf {
      update_interval = d;
      temp_scale = if a.fahrenheit then b'F' else b'C';
    } in
    if a.version
    then quits 0
    else if is_nil a.color
    then finish_args m a set
    else with_scheme m a (m.from_name a.color) set

unfoldable pub parse_args : Machine → Config Colorscheme → Parsed
unfolding declared assign_args finish_args
parse_args m conf =
    let a = m.goopt (declared m conf) in
    with_rate m a (m.parse_duration a.rate) (assign_args a conf)

-- The built-in layouts.
abbrev pub default_ui : Bytes
default_ui = codes "2:cpu\ndisk/1 2:mem/2\ntemp\n2:net 2:procs"

abbrev pub minimal_ui : Bytes
minimal_ui = codes "cpu\nmem procs"

abbrev pub battery_ui : Bytes
battery_ui = codes "cpu/2 batt/1\ndisk/1 2:mem/2\ntemp\nnet procs"

abbrev pub procs_ui : Bytes
procs_ui = codes "cpu 4:procs\ndisk\nmem\nnet"

abbrev pub kitchensink : Bytes
kitchensink = codes "3:cpu/2 3:mem/1\n4:temp/1 3:disk/2\npower\n3:net 3:procs"

-- `getLayout`; `none` is an error.
unfoldable pub get_layout : Machine → Bytes → Option Bytes
get_layout m name =
    if beq name (codes "-")
    then some m.stdin
    else if beq name (codes "default")
    then some default_ui
    else if beq name (codes "minimal")
    then some minimal_ui
    else if beq name (codes "battery")
    then some battery_ui
    else if beq name (codes "procs")
    then some procs_ui
    else if beq name (codes "kitchensink")
    then some kitchensink
    else elim (m.find name) [ none ↦ none | some text ↦ text ]

-- The program ends with a status, panics, or begins its event loop; after that it ends with 0.
pub data Outcome (F : Type 0) : Type 0 where
  exits : ℕ → Outcome F
  panics : Outcome F
  begins : App F → Outcome F

-- `HorizontalScale` of a widget that can be scaled.
abbrev scale_of : Made → ℤ
scale_of made = elim made.widget [
  | Widget.cpu interval scale average percpu colors ↦ scale
  | Widget.mem interval scale colors ↦ scale
  | Widget.batt scale colors ↦ scale
  | _ ↦ pos 0
]

abbrev mbps_of : Made → Option Bool
mbps_of made = elim made.widget [ Widget.net iface colors label mbps ↦ some mbps | _ ↦ none ]

module _ {F : Type 0} (sys : Platform F) (outer inner : Rect) (cpu_count : ℤ)
    (procs : Option (List (Proc F))) where
  abbrev proc_of : Option Made → Option (ProcWidget F)
  proc_of none = none
  proc_of (some made) = some (new_proc_widget sys outer inner cpu_count procs)

  -- The state in which the event loop begins.
  abbrev begin_with : Machine → Config Colorscheme → MyGrid → App F
  begin_with m conf grid = record {
    help_visible = conf.help_visible;
    statusbar = conf.statusbar;
    scale = conf.graph_horizontal_scale;
    previous_key = [];
    proc = proc_of grid.proc;
    net_mbps = grid.net >>= mbps_of;
    lines = map scale_of grid.lines;
    size = (m.width, if conf.statusbar then m.height -ℤ pos 1 else m.height);
  }

  module _ (sort : List Bytes → List Bytes) (series : Name → List Bytes) (m : Machine) where
    abbrev with_grid : Config Colorscheme → Option MyGrid → Outcome F
    with_grid conf none = panics
    with_grid conf (some grid) =
        if m.draws_first conf.statusbar grid then begins (begin_with m conf grid) else panics

    -- From `getLayout` on.
    abbrev with_layout : Config Colorscheme → Option Bytes → Outcome F
    with_layout conf none = exits 1
    with_layout conf (some text) =
        if conf.test
        then exits 0
        else if not m.opens_ui
        then exits 1
        else with_grid conf (layout (make_widget sort series conf) (parse_layout text))

    abbrev with_args : Parsed → Outcome F
    with_args (quits n) = exits n
    with_args failed = exits 2
    with_args (parsed conf) =
        if not m.opens_log
        then exits 2
        else if m.starts_devices conf.extension_vars
        then with_layout conf (get_layout m conf.layout)
        else panics

    abbrev with_config : Option (Loaded Colorscheme) → Outcome F
    with_config none = exits 2
    with_config (some (Loaded.failed conf e)) = exits 2
    with_config (some Loaded.panicked) = panics
    with_config (some (Loaded.ok conf)) = with_args (parse_args m conf)

    unfoldable pub run : Outcome F
    unfolding parse_args get_layout load_file layout make_widget parse_layout new_config
    run =
        if not m.speaks
        then exits 2
        else with_config (load_file m m.file (new_config m.default_scheme))
