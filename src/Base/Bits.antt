-- ===== src/Base/Bits.antt =====
-- The binary digits of a word, and what `|`, `&`, `^` and `~` do to them.
use Prim.Native.Nat.{min, max, differ, digits, bitwise, bit_and, bit_or, bit_xor}
use Prim.Native.Nat.{bit_and-bitwise, bit_or-bitwise, bit_xor-bitwise}
use Prim.Native.Nat.{ℕ, zero, suc, ◌+◌, ◌-◌, ◌*◌, ◌/◌, ◌%◌, ◌^◌, ◌≤◌, ◌<◌}
use mathlib.Core.Path.{◌≡◌, refl, ◌∙◌}
use native.Mathlib.Omega.{arith}
use native.Mathlib.Nat.{pow-suc, le_refl}
use cs162_group13_clone.Base.Tests.{◌==◌, if◌then◌else◌}

-- Digit k, the lowest first.
abbrev pub bit : ℕ → ℕ → ℕ
bit w zero = w % 2
bit w (suc k) = bit (w / 2) k

pub bit-lt-two : (w k : ℕ) → bit w k < 2
bit-lt-two w zero = omega arith
bit-lt-two w (suc k) = bit-lt-two (w / 2) k

module _ (z : ℕ → ℕ) (f : ℕ → ℕ → ℕ) where
  digits_enough : (n m a b : ℕ) → a ≤ n → a ≤ m → digits z f n a b ≡ digits z f m a b
  digits_enough zero zero a b p q = refl
  digits_enough zero (suc m) zero b p q = refl
  digits_enough zero (suc m) (suc a) b p q = absurd (omega arith)
  digits_enough (suc n) zero zero b p q = refl
  digits_enough (suc n) zero (suc a) b p q = absurd (omega arith)
  digits_enough (suc n) (suc m) zero b p q = refl
  digits_enough (suc n) (suc m) (suc a) b p q =
      rw (digits_enough n m (suc a / 2) (b / 2) (omega arith) (omega arith))

  lowest_digit :
      (a b : ℕ)
      → bitwise z f (suc a) b ≡ bitwise z f (suc a / 2) (b / 2) * 2 + f (suc a % 2) (b % 2)
  lowest_digit a b =
      omega (arith, digits_enough a (suc a / 2) (suc a / 2) (b / 2) (omega arith) (le_refl _))

or_step : (a b : ℕ) → bit_or a b ≡ bit_or (a / 2) (b / 2) * 2 + max (a % 2) (b % 2)
or_step zero b = simp bit_or-bitwise (omega arith)
or_step (suc a) b = simp bit_or-bitwise (lowest_digit (λ y. y) max a b)

and_step : (a b : ℕ) → bit_and a b ≡ bit_and (a / 2) (b / 2) * 2 + min (a % 2) (b % 2)
and_step zero b = simp bit_and-bitwise (omega arith)
and_step (suc a) b = simp bit_and-bitwise (lowest_digit (λ y. 0) min a b)

differ-zero : (y : ℕ) → differ 0 y ≡ y
differ-zero y = refl

xor_step : (a b : ℕ) → bit_xor a b ≡ bit_xor (a / 2) (b / 2) * 2 + differ (a % 2) (b % 2)
xor_step zero b = simp bit_xor-bitwise (omega arith)
xor_step (suc a) b = simp bit_xor-bitwise (lowest_digit (λ y. y) differ a b)

differ-lt : (x y : ℕ) → x < 2 → y < 2 → differ x y ≡ (x + y) % 2
differ-lt zero zero p q = refl
differ-lt zero (suc zero) p q = refl
differ-lt (suc zero) zero p q = refl
differ-lt (suc zero) (suc zero) p q = refl
differ-lt zero (suc (suc y)) p q = absurd (omega arith)
differ-lt (suc zero) (suc (suc y)) p q = absurd (omega arith)
differ-lt (suc (suc x)) y p q = absurd (omega arith)

pub bit-or : (a b k : ℕ) → bit (bit_or a b) k ≡ max (bit a k) (bit b k)
bit-or a b zero = omega (arith, or_step a b)
bit-or a b (suc k) =
    let e : bit_or a b / 2 ≡ bit_or (a / 2) (b / 2) = omega (arith, or_step a b) in
    rw e (bit-or (a / 2) (b / 2) k)

pub bit-and : (a b k : ℕ) → bit (bit_and a b) k ≡ min (bit a k) (bit b k)
bit-and a b zero = omega (arith, and_step a b)
bit-and a b (suc k) =
    let e : bit_and a b / 2 ≡ bit_and (a / 2) (b / 2) = omega (arith, and_step a b) in
    rw e (bit-and (a / 2) (b / 2) k)

pub bit-xor : (a b k : ℕ) → bit (bit_xor a b) k ≡ (bit a k + bit b k) % 2
bit-xor a b zero =
    omega (arith, xor_step a b, differ-lt (a % 2) (b % 2) (omega arith) (omega arith))
bit-xor a b (suc k) =
    let d = differ-lt (a % 2) (b % 2) (omega arith) (omega arith) in
    let e : bit_xor a b / 2 ≡ bit_xor (a / 2) (b / 2) = omega (arith, xor_step a b, d) in
    rw e (bit-xor (a / 2) (b / 2) k)

zero-bit : (k : ℕ) → bit 0 k ≡ 0
zero-bit zero = refl
zero-bit (suc k) = zero-bit k

-- A mask of one digit.
pub bit-pow : (j k : ℕ) → bit (2 ^ j) k ≡ (if j == k then 1 else 0)
bit-pow zero zero = refl
bit-pow zero (suc k) = zero-bit k ∙ ground arith
bit-pow (suc j) zero = ground (arith, pow-suc 2 j)
bit-pow (suc j) (suc k) =
    let e : 2 ^ suc j / 2 ≡ 2 ^ j = omega (arith, pow-suc 2 j) in rw e (bit-pow j k ∙ ground arith)

-- The complement in a word of n digits.
pub bit-complement : (n m k : ℕ) → m < 2 ^ n → k < n → bit (2 ^ n - 1 - m) k ≡ 1 - bit m k
bit-complement zero m k p q = absurd (omega arith)
bit-complement (suc n) m zero p q = omega (arith, pow-suc 2 n)
bit-complement (suc n) m (suc k) p q =
    let e : (2 ^ suc n - 1 - m) / 2 ≡ 2 ^ n - 1 - m / 2 = omega (arith, pow-suc 2 n) in
    rw e (bit-complement n (m / 2) k (omega (arith, pow-suc 2 n)) (omega arith))

and-zero : (n a : ℕ) → a ≤ n → bit_and a 0 ≡ 0
and-zero zero zero h = refl
and-zero zero (suc a) h = absurd (omega arith)
and-zero (suc n) zero h = refl
and-zero (suc n) (suc a) h = omega (arith, and_step (suc a) 0, and-zero n (suc a / 2) (omega arith))

-- `&` with a mask of one digit tests it.
pub and-pow : (w k : ℕ) → bit_and w (2 ^ k) ≡ bit w k * 2 ^ k
and-pow w zero = omega (arith, and_step w 1, and-zero (w / 2) (w / 2) (omega arith))
and-pow w (suc k) =
    let e : 2 ^ suc k / 2 ≡ 2 ^ k = omega (arith, pow-suc 2 k) in
    let i : bit_and (w / 2) (2 ^ suc k / 2) ≡ bit (w / 2) k * 2 ^ k = rw e (and-pow (w / 2) k) in
    let q : bit (w / 2) k * 2 ^ suc k ≡ bit (w / 2) k * 2 ^ k * 2 =
      rw (pow-suc 2 k) (omega arith) in
    omega (arith, and_step w (2 ^ suc k), i, q, pow-suc 2 k)
