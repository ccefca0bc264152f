-- ===== src/Utils/Runes/Tests.antt =====
-- Runs of `TruncateFront` on runes of one cell, as in utils/runes_test.go.
use gotop.Prelude.{
  ℕ, ℤ, pos, ◌-ℤ◌, ◌≤ℤ◌, List, [], ◌∷◌, ◌++◌, length, Bytes, codes, ◌≡◌, refl, arith,
}
use gotop.Utils.Runes.{truncate_front, total_width, Full, truncate_front_end}

abbrev one_cell : ℕ → ℤ
one_cell c = pos 1

abbrev cells : Bytes → ℤ
cells s = pos (length s)

ellipsis : truncate_front one_cell cells (codes "abcdef") (pos 5) (codes ".") ≡ codes ".cdef"
unfolding truncate_front ◌-ℤ◌ gotop.Prelude.◌+ℤ◌
ellipsis = refl

truncate_front_end_example :
    (front : Bytes) × (rest : Bytes) × (truncate_front one_cell cells
        (codes "abcdef")
        (pos 5)
        (codes ".")
      ≡ codes "." ++ rest)
    × (front ++ rest ≡ codes "abcdef")
    × (total_width one_cell rest ≤ℤ pos 5 -ℤ cells (codes "."))
    × Full one_cell (pos 5 -ℤ cells (codes ".")) front rest
truncate_front_end_example =
    truncate_front_end one_cell cells (codes "abcdef") (pos 5) (codes ".") refl
      (unfold ◌-ℤ◌ in omega arith)
