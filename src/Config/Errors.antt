-- ===== src/Config/Errors.antt =====
-- What `load` of config.go does with lines that hold no option.
use gotop.Prelude.{
  ℤ, List, [], ◌∷◌, ◌++◌, Option, none, some, ◌==◌, Bytes, atoi, All, ◌≡◌, ◌≢◌, refl, ap, sym, ◌∙◌,
  ◌⊎◌, inl, inr, arith, Bool-cases, Option-cases,
}
use gotop.Prelude.Strings.{split, lines, trim_space, to_lower}
use gotop.Config.RoundTrip.{load_lines_step}
use gotop.Config.{
  Config, Key, Loaded, LoadError, ok, failed, panicked, or_bad, key_of, set_key, set_parts,
  load_line, load_lines, load, parse_bool,
}

Loaded-cases :
    {Scheme : Type 0} (r : Loaded Scheme)
    → ((c : Config Scheme) × (r ≡ ok c))
      ⊎ (((c : Config Scheme) × ((e : LoadError) × (r ≡ failed c e))) ⊎ (r ≡ panicked))
Loaded-cases (ok c) = inl (c, refl)
Loaded-cases (failed c e) = inr (inl (c, (e, refl)))
Loaded-cases panicked = inr (inr refl)

failed-ne-ok : {Scheme : Type 0} {c c' : Config Scheme} {e : LoadError} → failed c e ≢ ok c'
failed-ne-ok = ground arith

panicked-ne-ok : {Scheme : Type 0} {c : Config Scheme} → panicked ≢ ok c
panicked-ne-ok = ground arith

module _ {Scheme : Type 0} (from_name : Bytes → Option Scheme)
    (parse_duration : Bytes → Option ℤ) where
  or_bad-ne-panicked :
      {A : Type 0} (conf : Config Scheme) (o : Option A) (f : A → Config Scheme)
      → or_bad conf o f ≢ panicked
  or_bad-ne-panicked conf none f = ground arith
  or_bad-ne-panicked conf (some a) f = ground arith

  set_key-ne-panicked :
      (k : Key) (key v : Bytes) (conf : Config Scheme)
      → set_key from_name parse_duration k key v conf ≢ panicked
  unfolding set_key
  set_key-ne-panicked Key.extension key v conf = ground arith
  set_key-ne-panicked Key.deprecated key v conf = ground arith
  set_key-ne-panicked Key.graph_scale key v conf = or_bad-ne-panicked conf (atoi v) _
  set_key-ne-panicked Key.help key v conf = or_bad-ne-panicked conf (parse_bool v) _
  set_key-ne-panicked Key.scheme key v conf = elim (Option-cases (from_name v)) [
    | inl e ↦ rw (e, set_key) (ground arith)
    | inr (cs, e) ↦ rw (e, set_key) (ground arith)
  ]
  set_key-ne-panicked Key.interval key v conf = or_bad-ne-panicked conf (atoi v) _
  set_key-ne-panicked Key.average key v conf = or_bad-ne-panicked conf (parse_bool v) _
  set_key-ne-panicked Key.percpu key v conf = or_bad-ne-panicked conf (parse_bool v) _
  set_key-ne-panicked Key.temp key v conf = ground arith
  set_key-ne-panicked Key.bar key v conf = or_bad-ne-panicked conf (parse_bool v) _
  set_key-ne-panicked Key.net key v conf = ground arith
  set_key-ne-panicked Key.layout_name key v conf = ground arith
  set_key-ne-panicked Key.log_size key v conf = or_bad-ne-panicked conf (atoi v) _
  set_key-ne-panicked Key.export key v conf = ground arith
  set_key-ne-panicked Key.mbps_flag key v conf = ground arith
  set_key-ne-panicked Key.temperatures key v conf = ground arith
  set_key-ne-panicked Key.nvidia_flag key v conf = or_bad-ne-panicked conf (parse_bool v) _
  set_key-ne-panicked Key.refresh key v conf = or_bad-ne-panicked conf (parse_duration v) _

  set_parts-ne-panicked :
      (ps : List Bytes) (conf : Config Scheme)
      → set_parts from_name parse_duration ps conf ≢ panicked
  set_parts-ne-panicked [] conf = ground arith
  set_parts-ne-panicked (k ∷ []) conf = ground arith
  set_parts-ne-panicked (k ∷ v ∷ []) conf =
      set_key-ne-panicked (key_of (to_lower k)) (to_lower k) v conf
  set_parts-ne-panicked (k ∷ v ∷ u ∷ ps) conf = ground arith

  load_line-ne-panicked :
      (l : Bytes) (conf : Config Scheme)
      → l ≢ []
      → load_line from_name parse_duration l conf ≢ panicked
  unfolding load_line
  load_line-ne-panicked [] conf h = absurd (h refl)
  load_line-ne-panicked (c ∷ l) conf h = elim (Bool-cases (c == b'#')) [
    | inl e ↦ rw e (ground arith)
    | inr e ↦ rw e (set_parts-ne-panicked (split (c ∷ l) b'=') conf)
  ]

  load_lines_stop :
      (l : Bytes) (ls : List Bytes) (conf conf' : Config Scheme) (err : LoadError)
      → load_line from_name parse_duration (trim_space l) conf ≡ failed conf' err
      → load_lines from_name parse_duration (l ∷ ls) conf ≡ failed conf' err
  unfolding load_lines
  load_lines_stop l ls conf conf' err e = ground (arith, e)

  load_lines_panic :
      (l : Bytes) (ls : List Bytes) (conf : Config Scheme)
      → load_line from_name parse_duration (trim_space l) conf ≡ panicked
      → load_lines from_name parse_duration (l ∷ ls) conf ≡ panicked
  unfolding load_lines
  load_lines_panic l ls conf e = ground (arith, e)

  load_lines-ne-panicked :
      (ls : List Bytes) (conf : Config Scheme)
      → All (λ l. trim_space l ≢ []) ls
      → load_lines from_name parse_duration ls conf ≢ panicked
  unfolding load_lines
  load_lines-ne-panicked [] conf h = ground arith
  load_lines-ne-panicked (l ∷ ls) conf (h, hs) =
      elim (Loaded-cases (load_line from_name parse_duration (trim_space l) conf)) [
        | inl (conf', e) ↦
            rw (load_lines_step from_name parse_duration l ls conf conf' e)
              (load_lines-ne-panicked ls conf' hs)
        | inr (inl (conf', (err, e))) ↦ rw (load_lines_stop l ls conf conf' err e) (ground arith)
        | inr (inr e) ↦ absurd (load_line-ne-panicked (trim_space l) conf h e)
      ]

  -- Loading a text whose lines are all more than white space does not panic, whatever they hold.
  pub load-ne-panicked :
      (text : Bytes) (conf : Config Scheme)
      → All (λ l. trim_space l ≢ []) (lines text)
      → load from_name parse_duration text conf ≢ panicked
  load-ne-panicked text conf = unfold load in load_lines-ne-panicked (lines text) conf

  -- Lines that load are passed over: the rest is loaded into what they gave.
  pub load_lines-append :
      (ls ks : List Bytes) (conf conf' : Config Scheme)
      → load_lines from_name parse_duration ls conf ≡ ok conf'
      → load_lines from_name parse_duration (ls ++ ks) conf
        ≡ load_lines from_name parse_duration ks conf'
  unfolding load_lines
  load_lines-append [] ks conf conf' h =
      ap (load_lines from_name parse_duration ks) (ok-injective h)
    where
      ok-injective : {a b : Config Scheme} → ok a ≡ ok b → a ≡ b
      ok-injective e = cc e
  load_lines-append (l ∷ ls) ks conf conf' h =
      elim (Loaded-cases (load_line from_name parse_duration (trim_space l) conf)) [
        | inl (mid, e) ↦
            load_lines_step from_name parse_duration l (ls ++ ks) conf mid e
            ∙ load_lines-append ls ks mid conf'
                (sym (load_lines_step from_name parse_duration l ls conf mid e) ∙ h)
        | inr (inl (mid, (err, e))) ↦
            absurd (failed-ne-ok (sym (load_lines_stop l ls conf mid err e) ∙ h))
        | inr (inr e) ↦ absurd (panicked-ne-ok (sym (load_lines_panic l ls conf e) ∙ h))
      ]
