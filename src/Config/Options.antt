-- ===== src/Config/Options.antt =====
-- Reading back each option that `marshal` of config.go writes.
use gotop.Prelude.{
  ℕ, ℤ, Bool, true, false, List, [], ◌∷◌, Option, some, if◌then◌else◌, ◌==◌, Bytes, codes, beq,
  itoa, atoi, atoi-itoa, InInt, All, ◌≡◌, refl, ap, sym, ◌∙◌, ◌⊎◌, inl, inr, arith, subst, ℕ,
}
use gotop.Prelude.Strings.{split, split-join, Lacks, trim_space, to_lower, is_clean, join, is_nil}
use gotop.Config.{Config, Loaded, ok, or_bad, key_of, set_key, load_lines, parse_bool}
use gotop.Config.Marshal.{bool_text, entry, commented, no_temps}
use gotop.Config.RoundTrip.{
  load_lines-comment, load_lines-entry, is_clean-bool_text, parse_bool-bool_text, is_clean-itoa,
  is_clean-join,
}

abbrev pub starts_with_hash : Bytes → Bool
starts_with_hash [] = false
starts_with_hash (c ∷ s) = c == b'#'

module _ {Scheme : Type 0} (from_name : Bytes → Option Scheme)
    (parse_duration : Bytes → Option ℤ) where
  abbrev pub loads : List Bytes → Config Scheme → Loaded Scheme
  loads = load_lines from_name parse_duration

  -- `c ∷ k` is a key as `marshal` writes it.
  abbrev IsKey : ℕ → Bytes → Type 0
  IsKey c k = ((c == b'#') ≡ false) × (is_clean (c ∷ k) ≡ true) × (to_lower (c ∷ k) ≡ c ∷ k)

  module _ (c : ℕ) (k : Bytes) (ls : List Bytes) (conf : Config Scheme) (is_key : IsKey c k) where
    abbrev sets : Bytes → Loaded Scheme
    sets v = set_key from_name parse_duration (key_of (c ∷ k)) (c ∷ k) v conf

    int_line :
        (z : ℤ) (f : ℤ → Config Scheme)
        → InInt z
        → sets (itoa z) ≡ or_bad conf (atoi (itoa z)) f
        → loads (entry (c ∷ k) (itoa z) ∷ ls) conf ≡ loads ls (f z)
    int_line z f h e =
        load_lines-entry from_name parse_duration c k (itoa z) ls conf (f z) is_key
          (is_clean-itoa z) (e ∙ ap (λ o. or_bad conf o f) (atoi-itoa z h))

    bool_line :
        (b : Bool) (f : Bool → Config Scheme)
        → sets (bool_text b) ≡ or_bad conf (parse_bool (bool_text b)) f
        → loads (entry (c ∷ k) (bool_text b) ∷ ls) conf ≡ loads ls (f b)
    bool_line b f e =
        load_lines-entry from_name parse_duration c k (bool_text b) ls conf (f b) is_key
          (is_clean-bool_text b) (e ∙ ap (λ o. or_bad conf o f) (parse_bool-bool_text b))

    text_line :
        (v : Bytes) (conf' : Config Scheme)
        → is_clean v ≡ true
        → sets v ≡ ok conf'
        → loads (entry (c ∷ k) v ∷ ls) conf ≡ loads ls conf'
    text_line v conf' h e = load_lines-entry from_name parse_duration c k v ls conf conf' is_key h e

  module _ (ls : List Bytes) (conf : Config Scheme) where
    pub load_lines-export :
        (port : Bytes)
        → is_clean port ≡ true
        → loads (commented (is_nil port) (entry (codes "metricsexportport") port) ∷ ls) conf
          ≡ loads ls (record conf { export_port = if is_nil port then conf.export_port else port })
    unfolding is_clean to_lower key_of beq set_key trim_space
    load_lines-export [] h = load_lines-comment from_name parse_duration _ ls conf refl
    load_lines-export (c ∷ port) h =
        text_line b'm' (codes "etricsexportport") ls conf (refl, refl, refl) (c ∷ port)
          (record conf { export_port = c ∷ port }) h refl

    pub load_lines-temps :
        (ts : List Bytes)
        → All (λ t. is_clean t ≡ true) ts
        → All (Lacks (λ b. b == b',')) ts
        → loads (commented (no_temps ts) (entry (codes "temperatures") (join ts b',')) ∷ ls) conf
          ≡ loads ls (record conf { temps = if no_temps ts then conf.temps else ts })
    load_lines-temps [] h lacks = load_lines-comment from_name parse_duration _ ls conf no_sensor
      where
        no_sensor :
            trim_space (b'#' ∷ entry (codes "temperatures") (join [] b','))
            ≡ b'#' ∷ codes "temperatures="
        no_sensor = unfold trim_space join in refl
    load_lines-temps (t ∷ ts) h lacks =
        text_line b't' (codes "emperatures") ls conf is_key (join (t ∷ ts) b',')
          (record conf { temps = t ∷ ts }) (is_clean-join (t ∷ ts) h)
          (set_key-temps
            ∙ ap (λ (ps : List Bytes). ok (record conf { temps = ps }))
                (split-join b',' t ts lacks))
      where
        is_key : IsKey b't' (codes "emperatures")
        is_key = unfold is_clean to_lower in (refl, refl, refl)

        set_key-temps :
            sets b't' (codes "emperatures") ls conf is_key (join (t ∷ ts) b',')
            ≡ ok (record conf { temps = split (join (t ∷ ts) b',') b',' })
        set_key-temps = unfold key_of beq set_key in refl

  module _ (ls : List Bytes) (conf : Config Scheme) where
    pub skip :
        (l : Bytes) → starts_with_hash (trim_space l) ≡ true → loads (l ∷ ls) conf ≡ loads ls conf
    skip l h = trimmed (trim_space l) refl h
      where
        hash : (c : ℕ) → (c == b'#') ≡ true → c ≡ b'#'
        hash c h = ground arith

        trimmed :
            (t : Bytes)
            → trim_space l ≡ t
            → starts_with_hash t ≡ true
            → loads (l ∷ ls) conf ≡ loads ls conf
        trimmed [] e h = ground arith
        trimmed (c ∷ t) e h =
            load_lines-comment from_name parse_duration l ls conf (e ∙ ap (λ x. x ∷ t) (hash c h))

    pub load_lines-graph_horizontal_scale :
        (z : ℤ)
        → InInt z
        → loads (entry (codes "graphhorizontalscale") (itoa z) ∷ ls) conf
          ≡ loads ls (record conf { graph_horizontal_scale = z })
    unfolding is_clean to_lower key_of beq set_key
    load_lines-graph_horizontal_scale z h =
        int_line b'g' (codes "raphhorizontalscale") ls conf (refl, refl, refl) z
          (λ x. record conf { graph_horizontal_scale = x }) h refl

    pub load_lines-help_visible :
        (b : Bool)
        → loads (entry (codes "helpvisible") (bool_text b) ∷ ls) conf
          ≡ loads ls (record conf { help_visible = b })
    unfolding is_clean to_lower key_of beq set_key
    load_lines-help_visible b =
        bool_line b'h' (codes "elpvisible") ls conf (refl, refl, refl) b
          (λ x. record conf { help_visible = x }) refl

    pub load_lines-update_interval :
        (z : ℤ)
        → InInt z
        → loads (entry (codes "updateinterval") (itoa z) ∷ ls) conf
          ≡ loads ls (record conf { update_interval = z })
    unfolding is_clean to_lower key_of beq set_key
    load_lines-update_interval z h =
        int_line b'u' (codes "pdateinterval") ls conf (refl, refl, refl) z
          (λ x. record conf { update_interval = x }) h refl

    pub load_lines-average_load :
        (b : Bool)
        → loads (entry (codes "averagecpu") (bool_text b) ∷ ls) conf
          ≡ loads ls (record conf { average_load = b })
    unfolding is_clean to_lower key_of beq set_key
    load_lines-average_load b =
        bool_line b'a' (codes "veragecpu") ls conf (refl, refl, refl) b
          (λ x. record conf { average_load = x }) refl

    pub load_lines-percpu_load :
        (b : Bool)
        → loads (entry (codes "percpuload") (bool_text b) ∷ ls) conf
          ≡ loads ls (record conf { percpu_load = b })
    unfolding is_clean to_lower key_of beq set_key
    load_lines-percpu_load b =
        bool_line b'p' (codes "ercpuload") ls conf (refl, refl, refl) b
          (λ x. record conf { percpu_load = x }) refl

    pub load_lines-statusbar :
        (b : Bool)
        → loads (entry (codes "statusbar") (bool_text b) ∷ ls) conf
          ≡ loads ls (record conf { statusbar = b })
    unfolding is_clean to_lower key_of beq set_key
    load_lines-statusbar b =
        bool_line b's' (codes "tatusbar") ls conf (refl, refl, refl) b
          (λ x. record conf { statusbar = x }) refl

    pub load_lines-net_interface :
        (s : Bytes)
        → is_clean s ≡ true
        → loads (entry (codes "netinterface") s ∷ ls) conf
          ≡ loads ls (record conf { net_interface = s })
    unfolding is_clean to_lower key_of beq set_key
    load_lines-net_interface s h =
        text_line b'n' (codes "etinterface") ls conf (refl, refl, refl) s
          (record conf { net_interface = s }) h refl

    pub load_lines-layout :
        (s : Bytes)
        → is_clean s ≡ true
        → loads (entry (codes "layout") s ∷ ls) conf ≡ loads ls (record conf { layout = s })
    unfolding is_clean to_lower key_of beq set_key
    load_lines-layout s h =
        text_line b'l' (codes "ayout") ls conf (refl, refl, refl) s (record conf { layout = s }) h
          refl

    pub load_lines-max_log_size :
        (z : ℤ)
        → InInt z
        → loads (entry (codes "maxlogsize") (itoa z) ∷ ls) conf
          ≡ loads ls (record conf { max_log_size = z })
    unfolding is_clean to_lower key_of beq set_key
    load_lines-max_log_size z h =
        int_line b'm' (codes "axlogsize") ls conf (refl, refl, refl) z
          (λ x. record conf { max_log_size = x }) h refl

    pub load_lines-nvidia :
        (b : Bool)
        → loads (entry (codes "nvidia") (bool_text b) ∷ ls) conf
          ≡ loads ls (record conf { nvidia = b })
    unfolding is_clean to_lower key_of beq set_key
    load_lines-nvidia b =
        bool_line b'n' (codes "vidia") ls conf (refl, refl, refl) b
          (λ x. record conf { nvidia = x }) refl

    pub load_lines-colorscheme :
        (name : Bytes) (cs : Scheme)
        → is_clean name ≡ true
        → from_name name ≡ some cs
        → loads (entry (codes "colorscheme") name ∷ ls) conf
          ≡ loads ls (record conf { colorscheme = cs })
    unfolding is_clean to_lower key_of beq set_key
    load_lines-colorscheme name cs h e =
        text_line b'c' (codes "olorscheme") ls conf (refl, refl, refl) name
          (record conf { colorscheme = cs }) h (rw e refl)

    pub load_lines-temp_scale :
        (t : ℕ)
        → (t ≡ b'C') ⊎ (t ≡ b'F')
        → loads (entry (codes "tempscale") (t ∷ []) ∷ ls) conf
          ≡ loads ls (record conf { temp_scale = t })
    unfolding is_clean to_lower key_of beq set_key
    load_lines-temp_scale t (inl e) =
        subst
          (λ x.
            loads (entry (codes "tempscale") (x ∷ []) ∷ ls) conf
            ≡ loads ls (record conf { temp_scale = x }))
          (sym e)
          (text_line b't' (codes "empscale") ls conf (refl, refl, refl) (codes "C")
            (record conf { temp_scale = b'C' }) refl refl)
    load_lines-temp_scale t (inr e) =
        subst
          (λ x.
            loads (entry (codes "tempscale") (x ∷ []) ∷ ls) conf
            ≡ loads ls (record conf { temp_scale = x }))
          (sym e)
          (text_line b't' (codes "empscale") ls conf (refl, refl, refl) (codes "F")
            (record conf { temp_scale = b'F' }) refl refl)

    -- Any value sets `mbps`.
    pub load_lines-mbps :
        (v : Bytes)
        → is_clean v ≡ true
        → loads (entry (codes "mbps") v ∷ ls) conf ≡ loads ls (record conf { mbps = true })
    unfolding is_clean to_lower key_of beq set_key
    load_lines-mbps v h =
        text_line b'm' (codes "bps") ls conf (refl, refl, refl) v (record conf { mbps = true }) h
          refl
