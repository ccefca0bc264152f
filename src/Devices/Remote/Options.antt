-- ===== src/Devices/Remote/Options.antt =====
-- The options of the remote extension: `parseConfig` of devices/remote.go.
use gotop.Prelude.{
  ℕ, Bool, true, false, List, [], ◌∷◌, ◌++◌, Option, some, ◌>>=◌, if◌then◌else◌, ◌==◌, Bytes, codes,
  length, drop, get_elem?, ◌≡◌, ◌≢◌, refl, ap, sym, ◌∙◌, arith, subst,
}
use gotop.Prelude.Maps.{Map}
use gotop.Prelude.Strings.{split, split-append, split_by-ne-nil, has_prefix}
use gotop.Devices.Remote.{Remote, set_option, parse_var, parse_vars, parse_config}

-- A text that has the prefix is the prefix and a rest.
rest_of : (s p : Bytes) → has_prefix s p ≡ true → s ≡ p ++ drop (length p) s
unfolding has_prefix
rest_of s [] h = refl
rest_of [] (b ∷ p) h = absurd (ground arith)
rest_of (c ∷ s) (b ∷ p) h =
    let head : c ≡ b = ground arith in
    let tail : has_prefix s p ≡ true = ground arith in cc (head, rest_of s p tail)

split-ne-nil : (s : Bytes) (sep : ℕ) → split s sep ≢ []
unfolding split
split-ne-nil s sep = split_by-ne-nil (λ c. c == sep) s

-- What `parse_var` does with the parts of a key.
abbrev of_parts : List Bytes → Bytes → Map Remote → Option (Map Remote)
of_parts parts value rv = if length parts == 2 then some rv else (do
  name ← get_elem? parts 1
  option ← get_elem? parts 2
  some (set_option name option value rv))

of_parts_total :
    (remote : Bytes) (ps : List Bytes) (value : Bytes) (rv : Map Remote)
    → ps ≢ []
    → (rv' : Map Remote) × (of_parts (remote ∷ ps) value rv ≡ some rv')
of_parts_total remote [] value rv h = absurd (h refl)
of_parts_total remote (name ∷ []) value rv h = (rv, refl)
of_parts_total remote (name ∷ option ∷ ps) value rv h = (
  set_option name option value rv,
  more (length (remote ∷ name ∷ option ∷ ps) == 2) (ground arith),
)
  where
    more : {x : Option (Map Remote)} (b : Bool) → b ≡ false → (if b then some rv else x) ≡ x
    more b e = rw e refl

parse_var_total :
    (key value : Bytes) (rv : Map Remote) → (rv' : Map Remote) × (parse_var key value rv ≡ some rv')
unfolding parse_var
parse_var_total key value rv = by_prefix (has_prefix key (codes "remote-")) refl
  where
    by_prefix :
        (b : Bool)
        → has_prefix key (codes "remote-") ≡ b
        → (rv' : Map Remote) × ((if b then of_parts (split key b'-') value rv else some rv)
            ≡ some rv')
    by_prefix false e = (rv, refl)
    by_prefix true e =
        subst (λ k. (rv' : Map Remote) × (of_parts (split k b'-') value rv ≡ some rv'))
          (sym (rest_of key (codes "remote-") e))
          (subst (λ ps. (rv' : Map Remote) × (of_parts ps value rv ≡ some rv'))
            (sym (
              split-append (codes "remote") b'-' (refl, (refl, (refl, (refl, (refl, (refl, tt))))))
                (drop 7 key)))
            (of_parts_total (codes "remote") (split (drop 7 key) b'-') value rv
              (split-ne-nil (drop 7 key) b'-')))

parse_vars_total :
    (vars : Map Bytes) (rv : Map Remote) → (rv' : Map Remote) × (parse_vars vars rv ≡ some rv')
unfolding parse_vars
parse_vars_total [] rv = (rv, refl)
parse_vars_total ((key, value) ∷ vars) rv =
    let (mid, e) = parse_var_total key value rv in
    let (end, e') = parse_vars_total vars mid in (end, ap (λ o. o >>= parse_vars vars) e ∙ e')

-- `parseConfig` does not panic, whatever variables there are: a key that starts with "remote-" has
-- two parts at least, and one with two is passed over before the third is read.
pub parse_config_total : (vars : Map Bytes) → (rv : Map Remote) × (parse_config vars ≡ some rv)
unfolding parse_config
parse_config_total vars = parse_vars_total vars []
