-- ===== src/Config/Reload.antt =====
-- A configuration that was written and is loaded again.
use gotop.Prelude.{
  length, ◌<◌, ◌^◌, leb, ◌&&◌, ℕ, ℤ, Bool, true, List, [], ◌∷◌, Option, some, if◌then◌else◌, ◌==◌,
  Bytes, codes, itoa, InInt, All, ◌≡◌, refl, ap, ◌∙◌, ◌⊎◌, arith,
}
use gotop.Prelude.Strings.{
  Lacks, trim_space, is_clean, Line, lines-unlines, Visible-Line, join, is_nil,
}
use gotop.Config.{Config, ok, load_lines, load}
use gotop.Config.Marshal.{bool_text, entry, commented, no_temps, marshal_lines, marshal}
use gotop.Config.RoundTrip.{Visible-entry, is_clean-bool_text, is_clean-itoa, is_clean-join}
use gotop.Config.Options.{
  starts_with_hash, skip, load_lines-graph_horizontal_scale, load_lines-help_visible,
  load_lines-colorscheme, load_lines-update_interval, load_lines-average_load,
  load_lines-percpu_load, load_lines-temp_scale, load_lines-statusbar, load_lines-net_interface,
  load_lines-layout, load_lines-max_log_size, load_lines-export, load_lines-mbps, load_lines-temps,
  load_lines-nvidia,
}

module _ {Scheme : Type 0} (from_name : Bytes → Option Scheme) (scheme_name : Scheme → Bytes) where
  -- What can be written so that it is read back: numbers are `int`s, the temperature unit is one
  -- of the two, the scheme is found by its name, and texts have no white space and no '='.
  pub record Writable (c : Config Scheme) : Type 0 where
    pub scale : InInt c.graph_horizontal_scale
    pub interval : InInt c.update_interval
    pub log_size : InInt c.max_log_size
    pub unit : (c.temp_scale ≡ b'C') ⊎ (c.temp_scale ≡ b'F')
    pub scheme : from_name (scheme_name c.colorscheme) ≡ some c.colorscheme
    pub scheme_text : is_clean (scheme_name c.colorscheme) ≡ true
    pub net : is_clean c.net_interface ≡ true
    pub layout_text : is_clean c.layout ≡ true
    pub export : is_clean c.export_port ≡ true
    pub sensors : All (λ t. is_clean t ≡ true) c.temps
    pub short : All (λ l. length l < 2 ^ 16) (marshal_lines scheme_name c)
    pub commas : All (Lacks (λ b. b == b',')) c.temps

-- What loading the file of `c` over `base` gives: the options of `c`, but for those which the
-- file does not hold; `mbps` is set, whatever it was.
abbrev pub reloaded : {Scheme : Type 0} → Config Scheme → Config Scheme → Config Scheme
reloaded c base = record base {
  graph_horizontal_scale = c.graph_horizontal_scale;
  help_visible = c.help_visible;
  colorscheme = c.colorscheme;
  update_interval = c.update_interval;
  average_load = c.average_load;
  percpu_load = c.percpu_load;
  temp_scale = c.temp_scale;
  statusbar = c.statusbar;
  net_interface = c.net_interface;
  layout = c.layout;
  max_log_size = c.max_log_size;
  export_port = if is_nil c.export_port then base.export_port else c.export_port;
  mbps = true;
  temps = if no_temps c.temps then base.temps else c.temps;
  nvidia = c.nvidia;
}

infixr 40 ◌⊕◌
◌⊕◌ : {A B : Type 0} → A → B → A × B
a ⊕ b = (a, b)

-- A text of printable bytes is a line.
abbrev is_printable : Bytes → Bool
is_printable [] = true
is_printable (c ∷ s) = leb 32 c && is_printable s

Line-text : (s : Bytes) → is_printable s ≡ true → Line s
Line-text [] h = (tt, refl)
Line-text (c ∷ s) h =
    let (lacks, same) = Line-text s (ground arith) in ((ground arith, lacks), ground (arith, same))

module _ {Scheme : Type 0} (from_name : Bytes → Option Scheme) (scheme_name : Scheme → Bytes)
    (parse_duration : Bytes → Option ℤ) (c base : Config Scheme)
    (w : Writable from_name scheme_name c) where
  skip_line :
      (l : Bytes) (ls : List Bytes) (conf : Config Scheme)
      → starts_with_hash (trim_space l) ≡ true
      → load_lines from_name parse_duration (l ∷ ls) conf
        ≡ load_lines from_name parse_duration ls conf
  skip_line l ls conf = skip from_name parse_duration ls conf l

  load_lines_nil : (conf : Config Scheme) → load_lines from_name parse_duration [] conf ≡ ok conf
  unfolding load_lines
  load_lines_nil conf = refl

  load_lines-marshal_lines :
      load_lines from_name parse_duration (marshal_lines scheme_name c) base ≡ ok (reloaded c base)
  unfolding marshal_lines trim_space
  load_lines-marshal_lines =
      skip_line _ _ _ refl
      ∙ load_lines-graph_horizontal_scale from_name parse_duration _ _ c.graph_horizontal_scale
          w.scale
      ∙ skip_line _ _ _ refl
      ∙ load_lines-help_visible from_name parse_duration _ _ c.help_visible
      ∙ skip_line _ _ _ refl
      ∙ load_lines-colorscheme from_name parse_duration _ _ (scheme_name c.colorscheme)
          c.colorscheme w.scheme_text w.scheme
      ∙ skip_line _ _ _ refl
      ∙ load_lines-update_interval from_name parse_duration _ _ c.update_interval w.interval
      ∙ skip_line _ _ _ refl
      ∙ load_lines-average_load from_name parse_duration _ _ c.average_load
      ∙ skip_line _ _ _ refl
      ∙ load_lines-percpu_load from_name parse_duration _ _ c.percpu_load
      ∙ skip_line _ _ _ refl
      ∙ load_lines-temp_scale from_name parse_duration _ _ c.temp_scale w.unit
      ∙ skip_line _ _ _ refl
      ∙ load_lines-statusbar from_name parse_duration _ _ c.statusbar
      ∙ skip_line _ _ _ refl
      ∙ load_lines-net_interface from_name parse_duration _ _ c.net_interface w.net
      ∙ skip_line _ _ _ refl
      ∙ load_lines-layout from_name parse_duration _ _ c.layout w.layout_text
      ∙ skip_line _ _ _ refl
      ∙ load_lines-max_log_size from_name parse_duration _ _ c.max_log_size w.log_size
      ∙ skip_line _ _ _ refl
      ∙ skip_line _ _ _ refl
      ∙ load_lines-export from_name parse_duration _ _ c.export_port w.export
      ∙ skip_line _ _ _ refl
      ∙ load_lines-mbps from_name parse_duration _ _ (bool_text c.mbps) (is_clean-bool_text c.mbps)
      ∙ skip_line _ _ _ refl
      ∙ load_lines-temps from_name parse_duration _ _ c.temps w.sensors w.commas
      ∙ skip_line _ _ _ refl
      ∙ load_lines-nvidia from_name parse_duration _ _ c.nvidia
      ∙ skip_line _ _ _ refl
      ∙ skip_line _ _ _ refl
      ∙ load_lines_nil _

  entry-Line : (k v : Bytes) → is_clean k ≡ true → is_clean v ≡ true → Line (entry k v)
  entry-Line k v hk hv = Visible-Line (entry k v) (Visible-entry k v hk hv)

  port-Line :
      (p : Bytes)
      → is_clean p ≡ true
      → Line (commented (is_nil p) (entry (codes "metricsexportport") p))
  unfolding is_clean
  port-Line [] h = Line-text (codes "#metricsexportport=") refl
  port-Line (b ∷ p) h = entry-Line (codes "metricsexportport") (b ∷ p) refl h

  temps-Line :
      (ts : List Bytes)
      → All (λ t. is_clean t ≡ true) ts
      → Line (commented (no_temps ts) (entry (codes "temperatures") (join ts b',')))
  unfolding is_clean
  temps-Line [] h = unfold join in Line-text (codes "#temperatures=") refl
  temps-Line (t ∷ ts) h =
      entry-Line (codes "temperatures") (join (t ∷ ts) b',') refl (is_clean-join (t ∷ ts) h)

  unit_clean : (t : ℕ) → (t ≡ b'C') ⊎ (t ≡ b'F') → is_clean (t ∷ []) ≡ true
  unfolding is_clean
  unit_clean t h = ground arith

  marshal_lines-Line : All Line (marshal_lines scheme_name c)
  unfolding marshal_lines is_clean
  marshal_lines-Line =
      Line-text _ refl
      ⊕ entry-Line (codes "graphhorizontalscale") (itoa c.graph_horizontal_scale) refl
          (is_clean-itoa c.graph_horizontal_scale)
      ⊕ Line-text _ refl
      ⊕ entry-Line (codes "helpvisible") (bool_text c.help_visible) refl
          (is_clean-bool_text c.help_visible)
      ⊕ Line-text _ refl
      ⊕ entry-Line (codes "colorscheme") (scheme_name c.colorscheme) refl w.scheme_text
      ⊕ Line-text _ refl
      ⊕ entry-Line (codes "updateinterval") (itoa c.update_interval) refl
          (is_clean-itoa c.update_interval)
      ⊕ Line-text _ refl
      ⊕ entry-Line (codes "averagecpu") (bool_text c.average_load) refl
          (is_clean-bool_text c.average_load)
      ⊕ Line-text _ refl
      ⊕ entry-Line (codes "percpuload") (bool_text c.percpu_load) refl
          (is_clean-bool_text c.percpu_load)
      ⊕ Line-text _ refl
      ⊕ entry-Line (codes "tempscale") (c.temp_scale ∷ []) refl (unit_clean c.temp_scale w.unit)
      ⊕ Line-text _ refl
      ⊕ entry-Line (codes "statusbar") (bool_text c.statusbar) refl (is_clean-bool_text c.statusbar)
      ⊕ Line-text _ refl
      ⊕ entry-Line (codes "netinterface") c.net_interface refl w.net
      ⊕ Line-text _ refl
      ⊕ entry-Line (codes "layout") c.layout refl w.layout_text
      ⊕ Line-text _ refl
      ⊕ entry-Line (codes "maxlogsize") (itoa c.max_log_size) refl (is_clean-itoa c.max_log_size)
      ⊕ Line-text _ refl
      ⊕ Line-text _ refl
      ⊕ port-Line c.export_port w.export
      ⊕ Line-text _ refl
      ⊕ entry-Line (codes "mbps") (bool_text c.mbps) refl (is_clean-bool_text c.mbps)
      ⊕ Line-text _ refl
      ⊕ temps-Line c.temps w.sensors
      ⊕ Line-text _ refl
      ⊕ entry-Line (codes "nvidia") (bool_text c.nvidia) refl (is_clean-bool_text c.nvidia)
      ⊕ Line-text _ refl
      ⊕ Line-text _ refl
      ⊕ tt

  -- Loading what `marshal` wrote for a writable configuration, of which no line has 64 kB, gives
  -- its options over the base: `mbps` is then set whatever it was, the base's port is kept if none
  -- was written, and `test`, the refresh period of nvidia and the options of the extensions are
  -- those of the base.
  pub load-marshal :
      load from_name parse_duration (marshal scheme_name c) base ≡ ok (reloaded c base)
  load-marshal =
      unfold load marshal in
      ap (λ ls. load_lines from_name parse_duration ls base)
        (lines-unlines (marshal_lines scheme_name c) marshal_lines-Line)
      ∙ load_lines-marshal_lines
