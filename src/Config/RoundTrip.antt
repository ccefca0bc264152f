-- ===== src/Config/RoundTrip.antt =====
-- Reading back what `marshal` wrote.
use gotop.Prelude.{
  suc, ℕ, ℤ, pos, negsuc, Bool, true, false, List, [], ◌∷◌, ◌++◌, Option, some, ◌==◌, Bytes, beq,
  itoa, itoa-All, is_digit, All, All-append, ◌≡◌, refl, ap, ◌∙◌, arith,
}
use gotop.Prelude.Strings.{
  split, split-Lacks, split-append, trim_space, to_lower, is_clean, is_clean-Lacks,
  is_clean-Visible, Visible, trim_space-Visible, join,
}
use gotop.Config.{Config, ok, key_of, set_key, load_line, load_lines, parse_bool}
use gotop.Config.Marshal.{bool_text, entry}

is_clean-append : (a b : Bytes) → is_clean a ≡ true → is_clean b ≡ true → is_clean (a ++ b) ≡ true
unfolding is_clean
is_clean-append [] b ha hb = hb
is_clean-append (c ∷ a) b ha hb = ground (arith, is_clean-append a b)

pub Visible-entry : (k v : Bytes) → is_clean k ≡ true → is_clean v ≡ true → Visible (entry k v)
Visible-entry k v hk hv =
    All-append _ k (b'=' ∷ v) (is_clean-Visible k hk) (refl, is_clean-Visible v hv)

module _ {Scheme : Type 0} (from_name : Bytes → Option Scheme)
    (parse_duration : Bytes → Option ℤ) where
  -- A line `key=value` of visible bytes runs the key's case.
  load_line_entry :
      (c : ℕ) (k v : Bytes) (conf : Config Scheme)
      → (c == b'#') ≡ false
      → is_clean (c ∷ k) ≡ true
      → is_clean v ≡ true
      → to_lower (c ∷ k) ≡ c ∷ k
      → load_line from_name parse_duration (trim_space (entry (c ∷ k) v)) conf
        ≡ set_key from_name parse_duration (key_of (c ∷ k)) (c ∷ k) v conf
  unfolding load_line
  load_line_entry c k v conf hash hk hv low =
      rw (trim_space-Visible (entry (c ∷ k) v) (Visible-entry (c ∷ k) v hk hv))
        (rw hash (rw splits (rw low)))
    where
      splits : split (entry (c ∷ k) v) b'=' ≡ (c ∷ k) ∷ v ∷ []
      splits =
          split-append (c ∷ k) b'=' (is_clean-Lacks (c ∷ k) hk) v
          ∙ ap (λ (r : List Bytes). (c ∷ k) ∷ r) (split-Lacks v b'=' (is_clean-Lacks v hv))

  pub load_lines_step :
      (l : Bytes) (ls : List Bytes) (conf conf' : Config Scheme)
      → load_line from_name parse_duration (trim_space l) conf ≡ ok conf'
      → load_lines from_name parse_duration (l ∷ ls) conf
        ≡ load_lines from_name parse_duration ls conf'
  unfolding load_lines
  load_lines_step l ls conf conf' e = ground (arith, e)

  pub load_lines-comment :
      (l : Bytes) (ls : List Bytes) (conf : Config Scheme) {rest : Bytes}
      → trim_space l ≡ b'#' ∷ rest
      → load_lines from_name parse_duration (l ∷ ls) conf
        ≡ load_lines from_name parse_duration ls conf
  load_lines-comment l ls conf e = load_lines_step l ls conf conf (rw e (unfold load_line in refl))

  pub load_lines-entry :
      (c : ℕ) (k v : Bytes) (ls : List Bytes) (conf conf' : Config Scheme)
      → ((c == b'#') ≡ false) × (is_clean (c ∷ k) ≡ true) × (to_lower (c ∷ k) ≡ c ∷ k)
      → is_clean v ≡ true
      → set_key from_name parse_duration (key_of (c ∷ k)) (c ∷ k) v conf ≡ ok conf'
      → load_lines from_name parse_duration (entry (c ∷ k) v ∷ ls) conf
        ≡ load_lines from_name parse_duration ls conf'
  load_lines-entry c k v ls conf conf' (hash, clean, low) hv e =
      load_lines_step (entry (c ∷ k) v) ls conf conf'
        (load_line_entry c k v conf hash clean hv low ∙ e)

pub is_clean-bool_text : (b : Bool) → is_clean (bool_text b) ≡ true
unfolding bool_text is_clean
is_clean-bool_text true = refl
is_clean-bool_text false = refl

pub parse_bool-bool_text : (b : Bool) → parse_bool (bool_text b) ≡ some b
unfolding bool_text parse_bool beq
parse_bool-bool_text true = refl
parse_bool-bool_text false = refl

is_clean-digits : (s : Bytes) → All (λ c. is_digit c ≡ true) s → is_clean s ≡ true
unfolding is_clean
is_clean-digits [] h = refl
is_clean-digits (c ∷ s) (hc, hs) = ground (arith, is_clean-digits s hs)

pub is_clean-itoa : (z : ℤ) → is_clean (itoa z) ≡ true
is_clean-itoa (pos n) = is_clean-digits (itoa (pos n)) (itoa-All n)
is_clean-itoa (negsuc n) = unfold itoa is_clean in is_clean-digits _ (itoa-All (suc n))

pub is_clean-join :
    (ps : List Bytes) → All (λ p. is_clean p ≡ true) ps → is_clean (join ps b',') ≡ true
unfolding join
is_clean-join [] h = unfold is_clean in refl
is_clean-join (p ∷ []) h = h.0
is_clean-join (p ∷ q ∷ ps) h =
    is_clean-append p (b',' ∷ join (q ∷ ps) b',') h.0
      (comma (join (q ∷ ps) b',') (is_clean-join (q ∷ ps) h.1))
  where
    comma : (s : Bytes) → is_clean s ≡ true → is_clean (b',' ∷ s) ≡ true
    comma s e = unfold is_clean in e
