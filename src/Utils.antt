-- ===== src/Utils.antt =====
-- The helpers of utils/. A `uint64` is a number below 2 ^ 64; the `float64` values are parameters.
pub mod Runes
use gotop.Prelude.{
  ℕ, ◌^◌, ltb, ℤ, pos, ◌+ℤ◌, ◌*ℤ◌, div_ℤ, ltb_ℤ, [], ◌∷◌, if◌then◌else◌, ◌==◌, Bytes, codes,
}

-- The unit that `ConvertBytes` picks, and the power of two by which it divides.
unfoldable pub unit_of : ℕ → ℕ × Bytes
unit_of b =
    if ltb b (2 ^ 10)
    then (0, codes "B")
    else if ltb b (2 ^ 20)
    then (10, codes "KB")
    else if ltb b (2 ^ 30)
    then (20, codes "MB")
    else if ltb b (2 ^ 40)
    then (30, codes "GB")
    else (40, codes "TB")

-- `over b k` is `float64(b) / float64(2 ^ k)`.
unfoldable pub convert_bytes : {F : Type 0} → (ℕ → ℕ → F) → ℕ → F × Bytes
unfolding unit_of
convert_bytes over b = let (k, unit) = unit_of b in (over b k, unit)

-- On integers without wrap-around.
unfoldable pub celsius_to_fahrenheit : ℤ → ℤ
celsius_to_fahrenheit c = div_ℤ (c *ℤ pos 9) 5 +ℤ pos 32

unfoldable pub max_int : ℤ → ℤ → ℤ
max_int a b = if ltb_ℤ b a then a else b

-- Replaces the first comma by a point.
unfoldable pub convert_localized_string : Bytes → Bytes
convert_localized_string [] = []
convert_localized_string (c ∷ s) =
    let rest = convert_localized_string s in if c == b',' then b'.' ∷ s else c ∷ rest
