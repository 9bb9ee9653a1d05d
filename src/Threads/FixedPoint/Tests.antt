-- ===== src/Threads/FixedPoint/Tests.antt =====
-- Runs of the conversions, and the theorems at concrete numbers.
use cs162_group13_clone.Base.{◌^◌, ◌-◌, ◌≡◌, refl, ok, arith}
use cs162_group13_clone.Base.Int.{pos, negsuc, ◌≤ℤ◌, ◌<ℤ◌, ◌+ℤ◌, ◌-ℤ◌, ◌*ℤ◌, ◌/ℤ◌}
use cs162_group13_clone.Threads.FixedPoint.{
  FixedPoint, mk_fix, fix_f, fix_int, fix_frac, fix_trunc, fix_round, fix_inv,
}
use cs162_group13_clone.Threads.FixedPoint.Rounding.{fix_trunc-fix_int, fix_trunc-fix_int_overflow}

abbrev half : FixedPoint
half = mk_fix (pos (2 ^ 15))

abbrev large : FixedPoint
large = mk_fix (pos (2 ^ 31 - 1))

fix_trunc-fix_int_example :
    (fix_int (negsuc 4) ≡ ok (mk_fix (negsuc 4 *ℤ fix_f)))
    × (fix_trunc (mk_fix (negsuc 4 *ℤ fix_f)) ≡ negsuc 4)
    × (pos 0 ≤ℤ negsuc 4 → fix_round (mk_fix (negsuc 4 *ℤ fix_f)) ≡ negsuc 4)
    × (negsuc 4 <ℤ pos 0 → fix_round (mk_fix (negsuc 4 *ℤ fix_f)) ≡ negsuc 4 +ℤ pos 1)
fix_trunc-fix_int_example = fix_trunc-fix_int (negsuc 4) (omega arith) (omega arith)

fix_trunc-fix_int_overflow_example :
    (fix_int (pos 40000) ≡ ok (mk_fix (pos 40000 *ℤ fix_f -ℤ pos (2 ^ 32))))
    × (fix_trunc (mk_fix (pos 40000 *ℤ fix_f -ℤ pos (2 ^ 32))) ≡ pos 40000 -ℤ pos (2 ^ 16))
fix_trunc-fix_int_overflow_example =
    fix_trunc-fix_int_overflow (pos 40000) (omega arith) (omega arith)

fix_frac_runs : fix_frac (pos 1) (pos 2) ≡ ok half
unfolding fix_frac
fix_frac_runs = refl

fix_inv_runs : fix_inv half ≡ ok (mk_fix (pos (2 ^ 17)))
unfolding fix_inv ◌*ℤ◌ ◌/ℤ◌
fix_inv_runs = refl
