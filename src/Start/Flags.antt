-- ===== src/Start/Flags.antt =====
-- What `parseArgs` of cmd/gotop/main.go makes of a configuration when no option is given.
use gotop.Prelude.{false, some, codes, if◌then◌else◌, ◌≡◌, ap, ◌∙◌}
use gotop.Prelude.Strings.{is_nil}
use gotop.Config.{Config}
use gotop.Layout.Widgets.{Colorscheme}
use gotop.Start.{
  Args, parsed, Machine, declared, assign_args, finish_args, with_scheme, with_rate, parse_args,
}

-- A configuration without what the flags and `--interface` set.
abbrev pub reset : Config Colorscheme → Config Colorscheme
reset conf = record conf {
  percpu_load = false;
  average_load = false;
  statusbar = false;
  mbps = false;
  nvidia = false;
  test = false;
  temp_scale = b'C';
  net_interface = codes "all";
}

-- If no option is given, then `parseArgs` goes on with the configuration of the file, but for the
-- averages, the status bar, the units and the scale of temperatures, nvidia, and the network
-- interfaces: what the file says of these is lost. (If the interval can be read back as it is
-- printed, and the scheme has a name, by which it is found.)
pub parse_args-reset :
    (m : Machine) (conf : Config Colorscheme)
    → ((a : Args) → m.goopt a ≡ a)
    → m.parse_duration (m.print_duration conf.update_interval) ≡ some conf.update_interval
    → is_nil (m.scheme_name conf.colorscheme) ≡ false
    → m.from_name (m.scheme_name conf.colorscheme) ≡ some conf.colorscheme
    → parse_args m conf ≡ parsed (reset conf)
unfolding parse_args declared assign_args finish_args
parse_args-reset m conf plain rate named found =
    ap (λ a. with_rate m a (m.parse_duration a.rate) (assign_args a conf)) (plain (declared m conf))
    ∙ ap (λ o. with_rate m (declared m conf) o (assign_args (declared m conf) conf)) rate
    ∙ ap
        (λ b.
          if b
          then finish_args m (declared m conf) (reset conf)
          else with_scheme m (declared m conf) (m.from_name (m.scheme_name conf.colorscheme))
              (reset conf))
        named
    ∙ ap (λ o. with_scheme m (declared m conf) o (reset conf)) found
