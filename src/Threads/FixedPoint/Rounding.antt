-- ===== src/Threads/FixedPoint/Rounding.antt =====
-- Conversions between integers and fixed-point numbers.
use cs162_group13_clone.Base.{◌^◌, ◌-◌, ◌≡◌, ok, arith}
use cs162_group13_clone.Base.Int.{ℤ, pos, negsuc, ◌≤ℤ◌, ◌<ℤ◌, ◌+ℤ◌, ◌-ℤ◌, ◌*ℤ◌}
use cs162_group13_clone.Threads.FixedPoint.{mk_fix, fix_f, fix_int, fix_trunc, fix_round}

-- Every integer n of the range -2^15 to 2^15 - 1 is converted without a panic to exactly n * 2^16,
-- and truncating that gives n back; rounding it gives n if n is not negative, and n + 1 if it is.
pub fix_trunc-fix_int :
    (n : ℤ)
    → negsuc (2 ^ 15 - 1) ≤ℤ n
    → n ≤ℤ pos (2 ^ 15 - 1)
    → (fix_int n ≡ ok (mk_fix (n *ℤ fix_f)))
      × (fix_trunc (mk_fix (n *ℤ fix_f)) ≡ n)
      × (pos 0 ≤ℤ n → fix_round (mk_fix (n *ℤ fix_f)) ≡ n)
      × (n <ℤ pos 0 → fix_round (mk_fix (n *ℤ fix_f)) ≡ n +ℤ pos 1)
unfolding fix_int fix_trunc fix_round ◌+ℤ◌
fix_trunc-fix_int (pos n) lo hi = (ground arith, ground arith, λ p. ground arith, λ p. ground arith)
fix_trunc-fix_int (negsuc n) lo hi =
    (ground arith, ground arith, λ p. ground arith, λ p. ground arith)

-- From 2^15 up to FIX_MAX_INT the assertion passes and the product overflows: the number stands
-- for n - 2^16.
pub fix_trunc-fix_int_overflow :
    (n : ℤ)
    → pos (2 ^ 15) ≤ℤ n
    → n ≤ℤ pos (2 ^ 16 - 1)
    → (fix_int n ≡ ok (mk_fix (n *ℤ fix_f -ℤ pos (2 ^ 32))))
      × (fix_trunc (mk_fix (n *ℤ fix_f -ℤ pos (2 ^ 32))) ≡ n -ℤ pos (2 ^ 16))
unfolding fix_int fix_trunc ◌-ℤ◌
fix_trunc-fix_int_overflow (pos n) lo hi = (ground arith, ground arith)
fix_trunc-fix_int_overflow (negsuc n) lo hi = absurd (omega arith)
