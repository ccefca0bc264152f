-- ===== src/Config/Marshal.antt =====
-- `marshal` of config.go: the lines that it prints, and their text.
use gotop.Prelude.{Bool, true, false, List, [], ◌∷◌, ◌++◌, if◌then◌else◌, Bytes, codes, itoa}
use gotop.Prelude.Strings.{join, is_nil, unlines}
use gotop.Config.{Config}

-- `%t`
unfoldable pub bool_text : Bool → Bytes
bool_text true = codes "true"
bool_text false = codes "false"

-- `%s=…` for a key.
abbrev pub entry : Bytes → Bytes → Bytes
entry key value = key ++ (b'=' ∷ value)

abbrev pub no_temps : List Bytes → Bool
no_temps [] = true
no_temps (t ∷ ts) = false

-- A '#' in front of the line of an option that is not set.
abbrev pub commented : Bool → Bytes → Bytes
commented unset line = if unset then b'#' ∷ line else line

module _ {Scheme : Type 0} (scheme_name : Scheme → Bytes) where
  unfoldable pub marshal_lines : Config Scheme → List Bytes
  unfolding bool_text
  marshal_lines c =
      codes "# Scale graphs to this level; 7 is the default, 2 is zoomed out."
      ∷ entry (codes "graphhorizontalscale") (itoa c.graph_horizontal_scale)
      ∷ codes "# If true, start the UI with the help visible"
      ∷ entry (codes "helpvisible") (bool_text c.help_visible)
      ∷ codes "# The color scheme to use.  See `--list colorschemes`"
      ∷ entry (codes "colorscheme") (scheme_name c.colorscheme)
      ∷ codes "# How frequently to update the UI, in nanoseconds"
      ∷ entry (codes "updateinterval") (itoa c.update_interval)
      ∷ codes "# If true, show the average CPU load"
      ∷ entry (codes "averagecpu") (bool_text c.average_load)
      ∷ codes "# If true, show load per CPU"
      ∷ entry (codes "percpuload") (bool_text c.percpu_load)
      ∷ codes "# Temperature units. C for Celsius, F for Fahrenheit"
      ∷ entry (codes "tempscale") (c.temp_scale ∷ [])
      ∷ codes "# If true, display a status bar"
      ∷ entry (codes "statusbar") (bool_text c.statusbar)
      ∷ codes "# The network interface to monitor"
      ∷ entry (codes "netinterface") c.net_interface
      ∷ codes "# A layout name. See `--list layouts`"
      ∷ entry (codes "layout") c.layout
      ∷ codes "# The maximum log file size, in bytes"
      ∷ entry (codes "maxlogsize") (itoa c.max_log_size)
      ∷ codes "# If set, export data as Prometheus metrics on the interface:port."
      ∷ codes "# E.g., `:8080` (colon is required, interface is not)"
      ∷ commented (is_nil c.export_port) (entry (codes "metricsexportport") c.export_port)
      ∷ codes "# Display network IO in mpbs if true"
      ∷ entry (codes "mbps") (bool_text c.mbps)
      ∷ codes "# A list of enabled temp sensors.  See `--list devices`"
      ∷ commented (no_temps c.temps) (entry (codes "temperatures") (join c.temps b','))
      ∷ codes "# Enable NVidia GPU metrics."
      ∷ entry (codes "nvidia") (bool_text c.nvidia)
      ∷ codes "# To configure the NVidia refresh rate, set a duration:"
      ∷ codes "#nvidiarefresh=30s"
      ∷ []

  unfoldable pub marshal : Config Scheme → Bytes
  unfolding marshal_lines
  marshal c = unlines (marshal_lines c)
