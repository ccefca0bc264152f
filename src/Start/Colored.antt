-- ===== src/Start/Colored.antt =====
-- A colour scheme that `load` of config.go and `parseArgs` of cmd/gotop/main.go leave has colours.
use gotop.Prelude.{
  ◌≤◌, ℤ, Bool, true, false, not, List, [], ◌∷◌, Option, none, some, if◌then◌else◌, All, Bytes,
  codes, beq, atoi, ◌==◌, ◌≡◌, ◌≢◌, refl, subst, arith,
}
use gotop.Prelude.Maps.{insert}
use gotop.Prelude.Strings.{lines, trim_space, split, to_lower, is_nil}
use gotop.Config.{
  Config, Loaded, LoadError, or_bad, parse_bool, Key, key_of, set_key, set_parts, load_line,
  load_lines, load,
}
use gotop.Layout.Widgets.{Colorscheme}
use gotop.Layout.Widgets.Named.{HasColors}
use gotop.Start.{
  Parsed, quits, failed, parsed, File, missing, unreadable, contents, Machine, load_file, Args,
  declared, assign_args, finish_args, list_of, is_list, set_nvidia, with_scheme, with_rate,
  parse_args,
}

-- Every colour scheme that is found has colours for the graphs.
abbrev pub AllColored : Machine → Type 0
AllColored m =
    HasColors m.default_scheme
    × ((name : Bytes) (cs : Colorscheme) → m.from_name name ≡ some cs → HasColors cs)

-- Every line of a configuration file is more than white space.
abbrev pub NoBlankLine : File → Type 0
NoBlankLine missing = Unit
NoBlankLine unreadable = Unit
NoBlankLine (contents text) = All (λ l. trim_space l ≢ []) (lines text)

pub some_eq : {A : Type 0} {a b : A} → some a ≡ some b → a ≡ b
some_eq e = ground (arith, e)

-- A loaded configuration whose scheme has colours.
abbrev pub Colored : Loaded Colorscheme → Type 0
Colored (Loaded.ok conf) = HasColors conf.colorscheme
Colored (Loaded.failed conf e) = Unit
Colored Loaded.panicked = Unit

module _ (m : Machine) (colored : AllColored m) where
  or_bad-Colored :
      {A : Type 0} (conf : Config Colorscheme) (o : Option A) (f : A → Config Colorscheme)
      → ((a : A) → HasColors (f a).colorscheme)
      → Colored (or_bad conf o f)
  or_bad-Colored conf none f h = tt
  or_bad-Colored conf (some a) f h = h a

  scheme-Colored :
      (name : Bytes) (conf : Config Colorscheme) (o : Option Colorscheme)
      → m.from_name name ≡ o
      → Colored (elim o [
        | none ↦ Loaded.failed conf LoadError.bad_scheme
        | some cs ↦ Loaded.ok (record conf { colorscheme = cs })
      ])
  scheme-Colored name conf none e = tt
  scheme-Colored name conf (some cs) e = colored.1 name cs e

  temp-Colored :
      (b d : Bool) (conf : Config Colorscheme)
      → HasColors conf.colorscheme
      → Colored (
          if b
          then Loaded.ok (record conf { temp_scale = b'C' })
          else if d
          then Loaded.ok (record conf { temp_scale = b'F' })
          else Loaded.failed (record conf { temp_scale = b'C' }) LoadError.bad_temp_scale)
  temp-Colored true d conf h = h
  temp-Colored false true conf h = h
  temp-Colored false false conf h = tt

  set_key-Colored :
      (k : Key) (key v : Bytes) (conf : Config Colorscheme)
      → HasColors conf.colorscheme
      → Colored (set_key m.from_name m.parse_duration k key v conf)
  unfolding set_key
  set_key-Colored Key.deprecated key v conf h = h
  set_key-Colored Key.graph_scale key v conf h = or_bad-Colored conf (atoi v) _ (λ _. h)
  set_key-Colored Key.help key v conf h = or_bad-Colored conf (parse_bool v) _ (λ _. h)
  set_key-Colored Key.scheme key v conf h = scheme-Colored v conf (m.from_name v) refl
  set_key-Colored Key.interval key v conf h = or_bad-Colored conf (atoi v) _ (λ _. h)
  set_key-Colored Key.average key v conf h = or_bad-Colored conf (parse_bool v) _ (λ _. h)
  set_key-Colored Key.percpu key v conf h = or_bad-Colored conf (parse_bool v) _ (λ _. h)
  set_key-Colored Key.temp key v conf h =
      temp-Colored (beq v (codes "C")) (beq v (codes "F")) conf h
  set_key-Colored Key.bar key v conf h = or_bad-Colored conf (parse_bool v) _ (λ _. h)
  set_key-Colored Key.net key v conf h = h
  set_key-Colored Key.layout_name key v conf h = h
  set_key-Colored Key.log_size key v conf h = or_bad-Colored conf (atoi v) _ (λ _. h)
  set_key-Colored Key.export key v conf h = h
  set_key-Colored Key.mbps_flag key v conf h = h
  set_key-Colored Key.temperatures key v conf h = h
  set_key-Colored Key.nvidia_flag key v conf h = or_bad-Colored conf (parse_bool v) _ (λ _. h)
  set_key-Colored Key.refresh key v conf h = or_bad-Colored conf (m.parse_duration v) _ (λ _. h)
  set_key-Colored Key.extension key v conf h = h

  set_parts-Colored :
      (parts : List Bytes) (conf : Config Colorscheme)
      → HasColors conf.colorscheme
      → Colored (set_parts m.from_name m.parse_duration parts conf)
  set_parts-Colored [] conf h = tt
  set_parts-Colored (k ∷ []) conf h = tt
  set_parts-Colored (k ∷ v ∷ []) conf h =
      set_key-Colored (key_of (to_lower k)) (to_lower k) v conf h
  set_parts-Colored (k ∷ v ∷ w ∷ more) conf h = tt

  load_line-Colored :
      (l : Bytes) (conf : Config Colorscheme)
      → HasColors conf.colorscheme
      → Colored (load_line m.from_name m.parse_duration l conf)
  unfolding load_line
  load_line-Colored [] conf h = tt
  load_line-Colored (c ∷ l) conf h = by_comment (c == b'#')
    where
      by_comment :
          (b : Bool)
          → Colored (
              if b
              then Loaded.ok conf
              else set_parts m.from_name m.parse_duration (split (c ∷ l) b'=') conf)
      by_comment true = h
      by_comment false = set_parts-Colored (split (c ∷ l) b'=') conf h

  pub load_lines-Colored :
      (ls : List Bytes) (conf : Config Colorscheme)
      → HasColors conf.colorscheme
      → Colored (load_lines m.from_name m.parse_duration ls conf)
  unfolding load_lines
  load_lines-Colored [] conf h = h
  load_lines-Colored (l ∷ ls) conf h =
      next (load_line m.from_name m.parse_duration (trim_space l) conf)
        (load_line-Colored (trim_space l) conf h) (load_lines-Colored ls)
    where
      next :
          (r : Loaded Colorscheme)
          → Colored r
          → ((conf : Config Colorscheme)
              → HasColors conf.colorscheme
              → Colored (load_lines m.from_name m.parse_duration ls conf))
          → Colored (elim r [
            | Loaded.ok conf' ↦ load_lines m.from_name m.parse_duration ls conf'
            | Loaded.failed conf' e ↦ Loaded.failed conf' e
            | Loaded.panicked ↦ Loaded.panicked
          ])
      next (Loaded.ok conf') h go = go conf' h
      next (Loaded.failed conf' e) h go = tt
      next Loaded.panicked h go = tt

  pub load_file-Colored :
      (file : File) (conf : Config Colorscheme) (r : Loaded Colorscheme)
      → HasColors conf.colorscheme
      → load_file m file conf ≡ some r
      → Colored r
  unfolding load_file load
  load_file-Colored missing conf r h e = subst Colored (some_eq e) h
  load_file-Colored unreadable conf r h e = absurd (ground (arith, e))
  load_file-Colored (contents text) conf r h e =
      subst Colored (some_eq e) (load_lines-Colored (lines text) conf h)

  -- A status of 1 at most, or a configuration whose scheme has colours.
  abbrev pub Ready : Parsed → Type 0
  Ready (quits n) = n ≤ 1
  Ready failed = Unit
  Ready (parsed conf) = HasColors conf.colorscheme

  list_of-Ready : (name : Bytes) → Ready (list_of m name)
  unfolding list_of
  list_of-Ready name = by_name (is_list name) (beq name (codes "langs")) m.walks_dicts
    where
      by_name :
          (b d w : Bool)
          → Ready (if b then quits 0 else if d then if w then quits 0 else failed else quits 1)
      by_name true d w = omega arith
      by_name false true true = omega arith
      by_name false true false = tt
      by_name false false w = omega arith

  set_nvidia-Ready :
      (conf : Config Colorscheme) → HasColors conf.colorscheme → Ready (parsed (set_nvidia conf))
  set_nvidia-Ready conf h = by_flag conf.nvidia
    where
      by_flag :
          (b : Bool)
          → HasColors
              (if b
                then record conf {
                  extension_vars = insert (codes "nvidia") (codes "true") conf.extension_vars;
                }
                else conf).colorscheme
      by_flag true = h
      by_flag false = h

  finish_args-Ready :
      (a : Args) (conf : Config Colorscheme)
      → HasColors conf.colorscheme
      → Ready (finish_args m a conf)
  unfolding finish_args
  finish_args-Ready a conf h = by_flags (not (is_nil a.list)) a.write_config m.writes
    where
      by_flags :
          (b d w : Bool)
          → Ready (
              if b
              then list_of m a.list
              else if d
              then if w then quits 0 else quits 1
              else parsed (set_nvidia conf))
      by_flags true d w = list_of-Ready a.list
      by_flags false true true = omega arith
      by_flags false true false = omega arith
      by_flags false false w = set_nvidia-Ready conf h

  with_scheme-Ready :
      (a : Args) (conf : Config Colorscheme) (name : Bytes) (o : Option Colorscheme)
      → m.from_name name ≡ o
      → Ready (with_scheme m a o conf)
  with_scheme-Ready a conf name none e = tt
  with_scheme-Ready a conf name (some cs) e = finish_args-Ready a _ (colored.1 name cs e)

  with_rate-Ready :
      (a : Args) (o : Option ℤ) (conf : Config Colorscheme)
      → HasColors conf.colorscheme
      → Ready (with_rate m a o conf)
  with_rate-Ready a none conf h = omega arith
  with_rate-Ready a (some d) conf h = by_flags a.version (is_nil a.color)
    where
      by_flags :
          (b n : Bool)
          → Ready (
              if b
              then quits 0
              else if n
              then finish_args m a (record conf {
                update_interval = d;
                temp_scale = if a.fahrenheit then b'F' else b'C';
              })
              else with_scheme m a (m.from_name a.color) (record conf {
                update_interval = d;
                temp_scale = if a.fahrenheit then b'F' else b'C';
              }))
      by_flags true n = omega arith
      by_flags false true = finish_args-Ready a _ h
      by_flags false false = with_scheme-Ready a _ a.color (m.from_name a.color) refl

  pub parse_args-Ready :
      (conf : Config Colorscheme) → HasColors conf.colorscheme → Ready (parse_args m conf)
  unfolding parse_args assign_args
  parse_args-Ready conf h =
      let a = m.goopt (declared m conf) in
      with_rate-Ready a (m.parse_duration a.rate) (assign_args a conf) h
