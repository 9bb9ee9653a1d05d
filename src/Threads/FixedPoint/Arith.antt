-- ===== src/Threads/FixedPoint/Arith.antt =====
-- Sums, products and the order of fixed-point numbers.
use native.Mathlib.Nat.{mul-div_cancel, div-zero}
use cs162_group13_clone.Base.{ℕ, ◌+◌, ◌*◌, ◌^◌, ◌≡◌, ◌<◌, ◌⊎◌, ok, arith, ◌>>=◌}
use cs162_group13_clone.Base.Int.{
  ℤ, pos, negsuc, ◌<ℤ◌, ◌-ℤ◌, ◌*ℤ◌, IsInt32, pos_part, neg_part, ◌/ℤ◌, to_int32_fits,
}
use cs162_group13_clone.Threads.FixedPoint.{
  FixedPoint, fix_f, fix_add, fix_sub, fix_mul, fix_scale, fix_unscale, fix_compare,
}

-- Sums wrap in two's complement, so a difference undoes a sum whether or not that overflows.
pub fix_sub-fix_add : (x y : FixedPoint) → IsInt32 x.f → IsInt32 y.f → fix_sub (fix_add x y) y ≡ x
unfolding fix_sub fix_add
fix_sub-fix_add x y hx hy = ground arith

abbrev pub mag : ℤ → ℕ
mag z = pos_part z + neg_part z

div_error : (p : ℤ) → mag (p -ℤ p /ℤ fix_f *ℤ fix_f) < 2 ^ 16
unfolding ◌-ℤ◌ ◌/ℤ◌ ◌*ℤ◌
div_error (pos n) = ground arith
div_error (negsuc n) = ground arith

-- A product that fits is off by less than one unit in the last place: x * y and
-- 2^16 * fix_mul x y, both 2^32 times a real number, differ by less than 2^16.
pub fix_mul_error :
    (x y : FixedPoint)
    → IsInt32 (x.f *ℤ y.f /ℤ fix_f)
    → mag (x.f *ℤ y.f -ℤ (fix_mul x y).f *ℤ fix_f) < 2 ^ 16
unfolding fix_mul
fix_mul_error x y h = rw (to_int32_fits _ h) (div_error (x.f *ℤ y.f))

-- `fix_compare` is -1, 0 or 1 exactly as x is less than, equal to or greater than y.
pub fix_compare_lem :
    (x y : FixedPoint)
    → ((fix_compare x y ≡ negsuc 0) × (x.f <ℤ y.f))
      ⊎ ((fix_compare x y ≡ pos 0) × (x ≡ y))
      ⊎ ((fix_compare x y ≡ pos 1) × (y.f <ℤ x.f))
unfolding fix_compare
fix_compare_lem x y = ground arith

mul_parts :
    (z : ℤ) (n : ℕ)
    → (pos_part (z *ℤ pos n) ≡ pos_part z * n) × (neg_part (z *ℤ pos n) ≡ neg_part z * n)
unfolding ◌*ℤ◌
mul_parts (pos m) n = ground arith
mul_parts (negsuc m) n = ground arith

mul-div : (z : ℤ) (n : ℕ) → 0 < n → z *ℤ pos n /ℤ pos n ≡ z
unfolding ◌/ℤ◌
mul-div z n p =
    rw
      (
        (mul_parts z n).0,
        (mul_parts z n).1,
        mul-div_cancel (pos_part z) p,
        mul-div_cancel (neg_part z) p,
        div-zero (pos_part z * n),
        div-zero (neg_part z * n),
      )
      (ground arith)

-- Dividing a product by the same positive number gives back x, if the product fits.
pub fix_unscale-fix_scale :
    (x : FixedPoint) (n : ℕ)
    → 0 < n
    → IsInt32 (x.f *ℤ pos n)
    → (fix_scale x (pos n) >>= λ y. fix_unscale y (pos n)) ≡ ok x
unfolding fix_scale fix_unscale
fix_unscale-fix_scale x n p h = rw (to_int32_fits _ h) (ground (arith, mul-div x.f n p))
