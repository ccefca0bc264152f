-- ===== src/Layout/Parser/Weights.antt =====
-- What `ParseLayout` promises: sound rows, and weights that are fractions of their row.
use gotop.Prelude.{
  ℕ, zero, suc, ◌+◌, ◌<◌, ◌≤◌, ◌^◌, ℤ, pos, negsuc, ◌+ℤ◌, leb_ℤ, wrap_int, wrap_int_fits, true,
  false, Bool-cases, if◌then◌else◌, sym, List, [], ◌∷◌, ◌++◌, append_assoc, All-append, All-weaken,
  All, map, ◌==◌, ◌≡◌, ◌≢◌, refl, ◌∙◌, ap, inl, inr, arith, Bytes, itoa, atoi, atoi-itoa, itoa-All,
  max_int, is_digit, some, Option, none,
}
use gotop.Prelude.Strings.{
  split, fields, lines, trim_space, to_lower, Lacks, split-Lacks, split-append, fields-trim_space,
}
use gotop.Layout.Parser.{
  WidgetRule, Raw, at_least_1, name_of, weight_of, read_rule, weight_total, divide, parse_row,
  skipped, parse_lines, parse_layout,
}

abbrev shares : List Raw → ℕ
shares [] = 0
shares (r ∷ rs) = r.share + shares rs

abbrev pub row_shares : List WidgetRule → ℕ
row_shares [] = 0
row_shares (r ∷ rs) = r.weight.share + row_shares rs

-- What a rule says after a sound parse.
abbrev pub RuleOk : WidgetRule → Type 0
RuleOk r = (1 ≤ r.height) × (1 ≤ r.weight.share)

at_least_1_pos : (o : Option ℤ) → 1 ≤ at_least_1 o
unfolding at_least_1
at_least_1_pos none = omega arith
at_least_1_pos (some (pos zero)) = omega arith
at_least_1_pos (some (pos (suc n))) = omega arith
at_least_1_pos (some (negsuc n)) = omega arith

name_of_pos : (ks : List Bytes) → 1 ≤ (name_of ks).0
unfolding name_of
name_of_pos [] = omega arith
name_of_pos (n ∷ []) = omega arith
name_of_pos (h ∷ n ∷ ks) = at_least_1_pos (atoi h)

weight_of_pos : (ks : List Bytes) → 1 ≤ (weight_of ks).1
unfolding weight_of
weight_of_pos [] = omega arith
weight_of_pos (n ∷ []) = omega arith
weight_of_pos (n ∷ w ∷ ks) = at_least_1_pos (atoi w)

abbrev RawOk : Raw → Type 0
RawOk r = (1 ≤ r.span) × (1 ≤ r.share)

read_rule-RawOk : (w : Bytes) → RawOk (read_rule w)
unfolding read_rule
read_rule-RawOk w =
    (name_of_pos (split (weight_of (split w b'/')).0 b':'), weight_of_pos (split w b'/'))

rules-RawOk : (ws : List Bytes) → All RawOk (map read_rule ws)
rules-RawOk [] = tt
rules-RawOk (w ∷ ws) = (read_rule-RawOk w, rules-RawOk ws)

-- While the sum fits an `int`, it is the sum.
weight_total-shares :
    (n : ℕ) (rs : List Raw) → n + shares rs < 2 ^ 63 → weight_total (pos n) rs ≡ pos (n + shares rs)
unfolding weight_total
weight_total-shares n [] h = ap pos (omega arith)
weight_total-shares n (r ∷ rs) h =
    ap (λ (z : ℤ). weight_total z rs) (added n r.share (omega arith))
    ∙ weight_total-shares (n + r.share) rs (omega arith)
    ∙ ap pos (omega arith)
  where
    added : (a b : ℕ) → a + b < 2 ^ 63 → wrap_int (pos a +ℤ pos b) ≡ pos (a + b)
    added a b k = unfold ◌+ℤ◌ in ground (arith, wrap_int_fits (a + b) k)

module _ (total : ℤ) where
  row_shares-divide : (rs : List Raw) → row_shares (map (divide total) rs) ≡ shares rs
  unfolding divide
  row_shares-divide [] = refl
  row_shares-divide (r ∷ rs) = omega (arith, row_shares-divide rs)

  divide-ok :
      (rs : List Raw)
      → All RawOk rs
      → All (λ r. RuleOk r × (r.weight.total ≡ total)) (map (divide total) rs)
  unfolding divide
  divide-ok [] h = tt
  divide-ok (r ∷ rs) (ok, h) = ((ok, refl), divide-ok rs h)

shares_pos : (rs : List Raw) → rs ≢ [] → All RawOk rs → 1 ≤ shares rs
shares_pos [] h ok = absurd (h refl)
shares_pos (r ∷ rs) h ok = omega (arith, ok.0)

-- The denominator that `parse_row` divides by.
abbrev denominator : List Raw → ℤ
denominator rs = if leb_ℤ (weight_total (pos 0) rs) (pos 1) then pos 1 else weight_total (pos 0) rs

denominator-shares :
    (rs : List Raw) → 1 ≤ shares rs → shares rs < 2 ^ 63 → denominator rs ≡ pos (shares rs)
denominator-shares rs a b = ground (arith, weight_total-shares 0 rs (omega arith))

map-read_rule-ne-nil : (ws : List Bytes) → ws ≢ [] → map read_rule ws ≢ []
map-read_rule-ne-nil [] h = absurd (h refl)
map-read_rule-ne-nil (w ∷ ws) h = ground arith

map-divide-ne-nil : (total : ℤ) (rs : List Raw) → rs ≢ [] → map (divide total) rs ≢ []
map-divide-ne-nil total [] h = absurd (h refl)
map-divide-ne-nil total (r ∷ rs) h = ground arith

-- What a row of the result is: it has a widget, each height and each weight's numerator is at
-- least 1, and all weights have one denominator.
pub record RowOk (row : List WidgetRule) : Type 0 where
  pub filled : row ≢ []
  pub total : ℤ
  pub rules : All (λ r. RuleOk r × (r.weight.total ≡ total)) row
  pub sums : row_shares row < 2 ^ 63 → total ≡ pos (row_shares row)

parse_row-RowOk : (l : Bytes) → fields l ≢ [] → RowOk (parse_row l)
unfolding parse_row
parse_row-RowOk l h =
    let rules = map read_rule (fields l) in
    let some_rule = map-read_rule-ne-nil (fields l) h in
    let same = row_shares-divide (denominator rules) rules in
    record {
      filled = map-divide-ne-nil (denominator rules) rules some_rule;
      total = denominator rules;
      rules = divide-ok (denominator rules) rules (rules-RawOk (fields l));
      sums = λ fits.
          denominator-shares rules (shares_pos rules some_rule (rules-RawOk (fields l)))
            (rw same at fits)
          ∙ ap pos (sym same);
    }

parse_lines-RowOk : (ls : List Bytes) → All RowOk (parse_lines ls)
unfolding parse_lines
parse_lines-RowOk [] = tt
parse_lines-RowOk (line ∷ ls) = elim (Bool-cases (skipped (trim_space line))) [
  | inl e ↦ rw e (parse_lines-RowOk ls)
  | inr e ↦ rw e (
    parse_row-RowOk (trim_space line) (fields-trim_space line (skipped_nil e)),
    parse_lines-RowOk ls,
  )
]
  where
    skipped_nil : {l : Bytes} → skipped l ≡ false → l ≢ []
    skipped_nil {l} e n = ground arith

-- Every row that `ParseLayout` returns, for any text, has a widget; all its spans and all its
-- weights are at least 1; and the weights are fractions with one denominator, which is the sum
-- of their numerators if that sum is an `int`: the weights of a row then sum to 1.
pub parse_layout-RowOk : (text : Bytes) → All RowOk (parse_layout text)
unfolding parse_layout
parse_layout-RowOk text = parse_lines-RowOk (lines text)

digits-Lacks :
    (sep n : ℕ)
    → ((c : ℕ) → is_digit c ≡ true → (c == sep) ≡ false)
    → Lacks (λ c. c == sep) (itoa (pos n))
digits-Lacks sep n f = All-weaken _ _ f (itoa (pos n)) (itoa-All n)

at_least_1-itoa : (n : ℕ) → 1 ≤ n → n ≤ max_int → at_least_1 (atoi (itoa (pos n))) ≡ n
at_least_1-itoa zero a b = absurd (omega arith)
at_least_1-itoa (suc n) a b = rw (atoi-itoa (pos (suc n)) b) (unfold at_least_1 in refl)

name_of_print :
    (span : ℕ) (name : Bytes)
    → 1 ≤ span
    → span ≤ max_int
    → Lacks (λ c. c == b':') name
    → name_of (split (itoa (pos span) ++ (b':' ∷ name)) b':') ≡ (span, to_lower name)
unfolding name_of
name_of_print span name a b colon =
    rw (split-append (itoa (pos span)) b':' (digits-Lacks b':' span (λ c h. ground arith)) name)
      (rw (split-Lacks name b':' colon) (rw (at_least_1-itoa span a b)))

weight_of_print :
    (first : Bytes) (weight : ℕ)
    → 1 ≤ weight
    → weight ≤ max_int
    → Lacks (λ c. c == b'/') first
    → weight_of (split (first ++ (b'/' ∷ itoa (pos weight))) b'/') ≡ (first, weight)
unfolding weight_of
weight_of_print first weight a b slash = rw (split-append first b'/' slash (itoa (pos weight))) (
    rw (split-Lacks (itoa (pos weight)) b'/' (digits-Lacks b'/' weight (λ c h. ground arith)))
      (rw (at_least_1-itoa weight a b)))

-- A rule in the documented form `rowspan:widget/weight`, with a name that holds no ':' and no
-- '/', and with numbers from 1 on that fit an `int`, is read as its parts, the name in lower case.
pub read_rule_print :
    (span weight : ℕ) (name : Bytes)
    → 1 ≤ span
    → span ≤ max_int
    → 1 ≤ weight
    → weight ≤ max_int
    → Lacks (λ c. c == b':') name
    → Lacks (λ c. c == b'/') name
    → read_rule (itoa (pos span) ++ (b':' ∷ (name ++ (b'/' ∷ itoa (pos weight)))))
      ≡ record { name = to_lower name; share = weight; span = span }
unfolding read_rule
read_rule_print span weight name a b c d colon slash =
    let first = itoa (pos span) ++ (b':' ∷ name) in
    let whole = append_assoc (itoa (pos span)) (b':' ∷ name) (b'/' ∷ itoa (pos weight)) in
    let lacks =
      All-append _ (itoa (pos span)) (b':' ∷ name) (digits-Lacks b'/' span (λ c h. ground arith))
        (refl, slash) in
    rw (← whole) (cc (weight_of_print first weight c d lacks, name_of_print span name a b colon))
