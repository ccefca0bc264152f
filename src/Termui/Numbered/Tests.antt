-- ===== src/Termui/Numbered/Tests.antt =====
-- Runs of the order of termui/linegraph.go.
use gotop.Prelude.{leb, pos, true, false, ◌++◌, codes, itoa, atoi, ◌≡◌, refl, arith}
use gotop.Termui.Numbered.{numbered_less}
use gotop.Termui.Numbered.Order.{numbered_less_self, numbered_less-itoa}

numbered_less_self_example : numbered_less (codes "CPU10") (codes "CPU10") ≡ true
numbered_less_self_example = numbered_less_self (codes "CPU10")

numbered_less-itoa_example :
    numbered_less (codes "CPU" ++ itoa (pos 2)) (codes "CPU" ++ itoa (pos 10)) ≡ leb 2 10
numbered_less-itoa_example =
    numbered_less-itoa (codes "CPU") 2 10 (refl, (refl, (refl, tt))) (omega arith) (omega arith)

-- Leading zeros count as further digits.
leading_zero : numbered_less (codes "a10") (codes "a002") ≡ false
unfolding numbered_less atoi
leading_zero = refl
