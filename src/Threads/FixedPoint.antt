-- ===== src/Threads/FixedPoint.antt =====
-- pintos/src/threads/fixed-point.h: 16.16 fixed-point numbers in a C `int`.
-- An `int` is a ℤ, wrapped to 32 bits by `to_int32` wherever the C expression is stored in one or
-- computed in one; a product that the code computes in `long long` cannot leave 64 bits and is
-- exact. A failed ASSERT and a division by zero are `panic`.
pub mod Rounding
pub mod Arith
mod Tests
use cs162_group13_clone.Base.{
  ◌-◌, ◌^◌, ◌&&◌, not, Bool, Outcome, ok, assert, ◌>>=◌, ◌>>◌, if◌then◌else◌,
}
use cs162_group13_clone.Base.Int.{ℤ, pos, negsuc, ◌+ℤ◌, ◌-ℤ◌, ◌*ℤ◌, ◌/ℤ◌, ltb_ℤ, leb_ℤ, to_int32}

-- FIX_F
abbrev pub fix_f : ℤ
fix_f = pos (2 ^ 16)

abbrev pub fix_max_int : ℤ
fix_max_int = pos (2 ^ 16 - 1)

-- -FIX_MAX_INT
abbrev pub fix_min_int : ℤ
fix_min_int = negsuc (2 ^ 16 - 2)

pub record FixedPoint : Type 0 where
  pub f : ℤ

abbrev pub mk_fix : ℤ → FixedPoint
mk_fix f = record { f = f }

abbrev pub is_zero : ℤ → Bool
is_zero z = leb_ℤ z (pos 0) && leb_ℤ (pos 0) z

-- The bounds that `fix_int` and `fix_frac` assert.
abbrev pub in_range : ℤ → Bool
in_range n = leb_ℤ fix_min_int n && leb_ℤ n fix_max_int

unfoldable pub fix_int : ℤ → Outcome FixedPoint
unfolding ◌*ℤ◌ to_int32
fix_int n = assert (in_range n) >> ok (mk_fix (to_int32 (n *ℤ fix_f)))

unfoldable pub fix_frac : ℤ → ℤ → Outcome FixedPoint
unfolding ◌*ℤ◌ ◌/ℤ◌ to_int32
fix_frac n d = do
  assert (not (is_zero d))
  assert (in_range (to_int32 (n /ℤ d)))
  ok (mk_fix (to_int32 (n *ℤ fix_f /ℤ d)))

unfoldable pub fix_round : FixedPoint → ℤ
unfolding ◌+ℤ◌ ◌/ℤ◌ to_int32
fix_round x = to_int32 (x.f +ℤ pos (2 ^ 15)) /ℤ fix_f

unfoldable pub fix_trunc : FixedPoint → ℤ
unfolding ◌/ℤ◌
fix_trunc x = x.f /ℤ fix_f

unfoldable pub fix_add : FixedPoint → FixedPoint → FixedPoint
unfolding ◌+ℤ◌ to_int32
fix_add x y = mk_fix (to_int32 (x.f +ℤ y.f))

unfoldable pub fix_sub : FixedPoint → FixedPoint → FixedPoint
unfolding ◌-ℤ◌ to_int32
fix_sub x y = mk_fix (to_int32 (x.f -ℤ y.f))

unfoldable pub fix_mul : FixedPoint → FixedPoint → FixedPoint
fix_mul x y = mk_fix (to_int32 (x.f *ℤ y.f /ℤ fix_f))

unfoldable pub fix_scale : FixedPoint → ℤ → Outcome FixedPoint
fix_scale x n = assert (leb_ℤ (pos 0) n) >> ok (mk_fix (to_int32 (x.f *ℤ n)))

unfoldable pub fix_div : FixedPoint → FixedPoint → Outcome FixedPoint
fix_div x y = assert (not (is_zero y.f)) >> ok (mk_fix (to_int32 (x.f *ℤ fix_f /ℤ y.f)))

unfoldable pub fix_unscale : FixedPoint → ℤ → Outcome FixedPoint
fix_unscale x n = assert (ltb_ℤ (pos 0) n) >> ok (mk_fix (x.f /ℤ n))

unfoldable pub fix_inv : FixedPoint → Outcome FixedPoint
unfolding fix_int fix_div
fix_inv x = do one ← fix_int (pos 1); fix_div one x

unfoldable pub fix_compare : FixedPoint → FixedPoint → ℤ
fix_compare x y = if ltb_ℤ x.f y.f then negsuc 0 else if ltb_ℤ y.f x.f then pos 1 else pos 0
