-- ===== src/Termui/Numbered.antt =====
-- `Less` of `numbered` in termui/linegraph.go, the order of the names of a graph's series. A name is
-- a list of bytes; `ai` stands where the two texts are cut. The fuel is one more than the length of
-- the first text: each round drops a byte of it at least.
pub mod Order
mod Tests
use gotop.Prelude.{
  ℕ, zero, suc, ◌+◌, ltb, ◌==◌, ℤ, ltb_ℤ, eqb_ℤ, Bool, true, false, not, List, [], ◌∷◌, ◌++◌,
  Option, none, some, if◌then◌else◌, Bytes, atoi, is_digit, length, drop,
}

-- The digits at the start of a text.
unfoldable pub digits_of : Bytes → Bytes
digits_of [] = []
digits_of (c ∷ s) = let rest = digits_of s in if is_digit c then c ∷ rest else []

-- The numbers that `Atoi` reads; `rest` is what the rest of the texts says.
abbrev pub by_numbers : Option ℤ → Option ℤ → Bool → Bool
by_numbers none b rest = true
by_numbers (some x) none rest = true
by_numbers (some x) (some y) rest = if eqb_ℤ x y then rest else ltb_ℤ x y

unfoldable pub less_from : ℕ → Bytes → Bytes → Bool
unfolding digits_of
less_from zero ars brs = true
less_from (suc fuel) [] brs = true
less_from (suc fuel) (ar ∷ ars) [] = false
less_from (suc fuel) (ar ∷ ars) (br ∷ brs) =
    let adigs = digits_of (ar ∷ ars) in
    let bdigs = digits_of (br ∷ brs) in
    let rest = less_from fuel ars brs in
    let after = less_from fuel (drop (length adigs) (ar ∷ ars)) (drop (length adigs) (br ∷ brs)) in
    if is_digit ar
    then if not (is_digit br)
      then true
      else if ltb (length bdigs) (length adigs)
      then false
      else by_numbers (atoi adigs) (atoi bdigs) after
    else if is_digit br
    then false
    else if ar == br
    then rest
    else ltb ar br

unfoldable pub numbered_less : Bytes → Bytes → Bool
unfolding less_from
numbered_less ars brs = less_from (suc (length ars)) ars brs
