-- ===== src/Prelude/Decimal.antt =====
-- Decimal text of integers: `strconv.Itoa`, `%d` and `strconv.Atoi` on a 64-bit `int`.
use Prim.Native.Nat.{ℕ, zero, suc, ◌+◌, ◌-◌, ◌*◌, ◌/◌, ◌%◌, ◌^◌, ◌≤◌}
use mathlib.Core.Path.{◌≡◌, refl, sym, ◌∙◌, ap}
use mathlib.Core.Bool.{Bool, true, false, ◌&&◌}
use mathlib.Core.Option.{Option, none, some}
use mathlib.Core.List.{[], ◌∷◌}
use native.Mathlib.Omega.{arith}
use mathlib.Core.Logic.{inl, inr}
use gotop.Prelude.Tests.{Bool-cases, ltb, leb, ◌==◌, if◌then◌else◌}
use gotop.Prelude.Text.{Bytes}
use gotop.Prelude.Lists.{All, length}
use gotop.Prelude.Int.{ℤ, pos, negsuc}

-- The digits of `n` in front of `out`; `n` rounds are more than enough.
unfoldable pub digits : ℕ → ℕ → Bytes → Bytes
digits zero n out = (b'0' + n % 10) ∷ out
digits (suc fuel) n out =
    let more = digits fuel (n / 10) ((b'0' + n % 10) ∷ out) in
    if ltb n 10 then (b'0' + n) ∷ out else more

unfoldable pub itoa : ℤ → Bytes
unfolding digits
itoa (pos n) = digits n n []
itoa (negsuc n) = b'-' ∷ digits (suc n) (suc n) []

abbrev pub is_digit : ℕ → Bool
is_digit c = leb b'0' c && leb c b'9'

-- The value of a run of digits behind the value `n`; `none` on any other byte.
unfoldable pub scan : Bytes → ℕ → Option ℕ
scan [] n = some n
scan (c ∷ s) n = if is_digit c then scan s (n * 10 + (c - b'0')) else none

unfoldable pub scan_some : Bytes → Option ℕ
unfolding scan
scan_some [] = none
scan_some (c ∷ s) = scan (c ∷ s) 0

abbrev pub max_int : ℕ
max_int = 2 ^ 63 - 1

abbrev signed : Bool → Option ℕ → Option ℤ
signed neg none = none
signed false (some n) = if leb n max_int then some (pos n) else none
signed true (some zero) = some (pos 0)
signed true (some (suc n)) = if leb n max_int then some (negsuc n) else none

-- `strconv.Atoi`: `none` is its error, for a syntax that is no integer or a value out of range.
unfoldable pub atoi : Bytes → Option ℤ
unfolding scan_some
atoi [] = none
atoi (c ∷ s) =
    if c == b'-'
    then signed true (scan_some s)
    else if c == b'+'
    then signed false (scan_some s)
    else signed false (scan_some (c ∷ s))

-- What fits an `int`.
abbrev pub InInt : ℤ → Type 0
InInt (pos n) = n ≤ max_int
InInt (negsuc n) = n ≤ max_int

scan-digits : (fuel n : ℕ) (out : Bytes) → n ≤ fuel → scan (digits fuel n out) 0 ≡ scan out n
unfolding digits scan
scan-digits zero n out h = ground arith
scan-digits (suc fuel) n out h = ground (arith, scan-digits fuel (n / 10) ((b'0' + n % 10) ∷ out))

-- The text starts with a digit.
digits_head :
    (fuel n : ℕ) (out : Bytes)
    → (c : ℕ) × (s : Bytes) × (digits fuel n out ≡ c ∷ s) × (is_digit c ≡ true)
unfolding digits
digits_head zero n out = (b'0' + n % 10, out, refl, ground arith)
digits_head (suc fuel) n out = elim (Bool-cases (ltb n 10)) [
  | inl small ↦ (b'0' + n, out, rw small, ground arith)
  | inr large ↦
      let (c, s, e, h) = digits_head fuel (n / 10) ((b'0' + n % 10) ∷ out) in (c, s, rw large e, h)
]

scan_some-digits : (n : ℕ) → scan_some (digits n n []) ≡ some n
unfolding scan_some
scan_some-digits n =
    let (c, s, e, h) = digits_head n n [] in
    rw e (sym (ap (λ (t : Bytes). scan t 0) e) ∙ scan-digits n n [] (omega arith))

atoi-digits : (n : ℕ) → atoi (digits n n []) ≡ signed false (some n)
unfolding atoi
atoi-digits n =
    let (c, s, e, h) = digits_head n n [] in
    rw e (ground (arith, sym (ap scan_some e) ∙ scan_some-digits n))

-- Reading back the decimal text of an `int` gives the `int`.
pub atoi-itoa : (z : ℤ) → InInt z → atoi (itoa z) ≡ some z
unfolding itoa
atoi-itoa (pos n) h = ground (arith, atoi-digits n)
atoi-itoa (negsuc n) h = unfold atoi in ground (arith, scan_some-digits (suc n))

-- The digits of a number are digits.
digits-All :
    (fuel n : ℕ) (out : Bytes)
    → All (λ c. is_digit c ≡ true) out
    → All (λ c. is_digit c ≡ true) (digits fuel n out)
unfolding digits
digits-All zero n out h = (ground arith, h)
digits-All (suc fuel) n out h = elim (Bool-cases (ltb n 10)) [
  | inl small ↦ rw small (ground arith, h)
  | inr large ↦ rw large (digits-All fuel (n / 10) ((b'0' + n % 10) ∷ out) (ground arith, h))
]

pub itoa-All : (n : ℕ) → All (λ c. is_digit c ≡ true) (itoa (pos n))
unfolding itoa
itoa-All n = digits-All n n [] tt

length-digits_lower : (fuel n : ℕ) (out : Bytes) → length out + 1 ≤ length (digits fuel n out)
unfolding digits
length-digits_lower zero n out = omega arith
length-digits_lower (suc fuel) n out =
    ground (arith, length-digits_lower fuel (n / 10) ((b'0' + n % 10) ∷ out))

length-digits_le :
    (fuel more m n : ℕ) (out end : Bytes)
    → m ≤ n
    → n ≤ more
    → length out ≤ length end
    → length (digits fuel m out) ≤ length (digits more n end)
unfolding digits
length-digits_le zero more m n out end le fits h = omega (arith, length-digits_lower more n end)
length-digits_le (suc fuel) zero m n out end le fits h = ground arith
length-digits_le (suc fuel) (suc more) m n out end le fits h = ground (
  arith,
  length-digits_lower more (n / 10) ((b'0' + n % 10) ∷ end),
  length-digits_le fuel more (m / 10) (n / 10) ((b'0' + m % 10) ∷ out) ((b'0' + n % 10) ∷ end)
      (omega arith) (omega arith) (omega arith),
)

-- A greater number has at least as many digits.
pub length-itoa_le : (m n : ℕ) → m ≤ n → length (itoa (pos m)) ≤ length (itoa (pos n))
unfolding itoa
length-itoa_le m n le = length-digits_le m n m n [] [] le (omega arith) (omega arith)

-- The text of a number starts with a digit.
pub itoa_head : (n : ℕ) → (c : ℕ) × (s : Bytes) × (itoa (pos n) ≡ c ∷ s) × (is_digit c ≡ true)
unfolding itoa
itoa_head n = digits_head n n []

-- The value that `Atoi` returns beside its error: 0 for a syntax error, the nearest bound for a
-- value out of range.
abbrev clamped : Bool → Option ℕ → ℤ
clamped neg none = pos 0
clamped false (some n) = pos (if leb n max_int then n else max_int)
clamped true (some zero) = pos 0
clamped true (some (suc n)) = negsuc (if leb n max_int then n else max_int)

unfoldable pub atoi_value : Bytes → ℤ
unfolding scan_some
atoi_value [] = pos 0
atoi_value (c ∷ s) =
    if c == b'-'
    then clamped true (scan_some s)
    else if c == b'+'
    then clamped false (scan_some s)
    else clamped false (scan_some (c ∷ s))

or_error : (neg : Bool) (o : Option ℕ) (z : ℤ) → signed neg o ≡ some z → clamped neg o ≡ z
or_error neg none z h = absurd (ground (arith, h))
or_error false (some n) z h = ground (arith, h)
or_error true (some zero) z h = ground (arith, h)
or_error true (some (suc n)) z h = ground (arith, h)

-- Without an error it is the number.
pub atoi_value-atoi : (s : Bytes) (z : ℤ) → atoi s ≡ some z → atoi_value s ≡ z
unfolding atoi atoi_value
atoi_value-atoi [] z h = absurd (ground (arith, h))
atoi_value-atoi (c ∷ s) z h = ground (
  arith,
  h,
  or_error true (scan_some s) z,
  or_error false (scan_some s) z,
  or_error false (scan_some (c ∷ s)) z,
)
