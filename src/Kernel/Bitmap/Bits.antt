-- ===== src/Kernel/Bitmap/Bits.antt =====
-- The bits that a bitmap holds, and what the operations on one bit do to them.
use Prim.Native.Nat.{bit_and, bit_or, bit_xor}
use native.Mathlib.Nat.{pow-le-pow_right, one-le-pow}
use native.Mathlib.Decide.{ℕ_discrete}
use cs162_group13_clone.Base.{
  ℕ, zero, suc, ◌+◌, ◌*◌, ◌/◌, ◌%◌, ◌^◌, ◌≤◌, ◌<◌, ◌≡◌, refl, ◌∙◌, inl, inr, ◌==◌, Bool, true,
  false, not, ok, arith, if◌then◌else◌, length, length-set, get_or, get_or-set_self, get_or-set_ne,
  Bool-cases, ==_iff, lt→ltb,
}
use cs162_group13_clone.Base.Bits.{
  bit, bit-lt-two, bit-or, bit-and, bit-xor, bit-pow, bit-complement, and-pow,
}
use cs162_group13_clone.Kernel.Bitmap.{
  Bitmap, elem_idx, bit_mask, elem_cnt, complement, at_word, bitmap_mark, bitmap_reset, bitmap_flip,
  bitmap_set, bitmap_test,
}

-- There is a word for each bit, and a `size_t` holds the number of bits.
pub record IsValid (b : Bitmap) : Type 0 where
  pub words : elem_cnt b.bit_cnt ≤ length b.bits
  pub small : b.bit_cnt < 2 ^ 32

-- Bit i of the bitmap.
abbrev pub get : Bitmap → ℕ → Bool
get b i = bit (get_or b.bits (i / 32) 0) (i % 32) == 1

pow-lt : (k : ℕ) → k < 32 → 2 ^ k < 2 ^ 32
pow-lt k h = omega (arith, pow-le-pow_right {n = 2} (omega arith) {i = k} {j = 31} (omega arith))

test_digit : (d k : ℕ) → d < 2 → not (d * 2 ^ k == 0) ≡ (d == 1)
test_digit zero k h = ground arith
test_digit (suc zero) k h = ground (arith, one-le-pow k 2 (omega arith))
test_digit (suc (suc d)) k h = absurd (omega arith)

-- `bitmap_test` gives the bit, for an index of the bitmap.
pub bitmap_test_lem : (b : Bitmap) (i : ℕ) → i < b.bit_cnt → bitmap_test b i ≡ ok (get b i)
unfolding bitmap_test
bitmap_test_lem b i h =
    let w = get_or b.bits (i / 32) 0 in
    rw (
      lt→ltb _ _ h,
      and-pow w (i % 32),
      test_digit (bit w (i % 32)) (i % 32) (bit-lt-two w (i % 32)),
    )

-- A change of one word by an f that sets digit `i % 32` to v and leaves the others.
module _ (b : Bitmap) (i v : ℕ) (f : ℕ → ℕ) where
  abbrev SetsDigit : Type 0
  SetsDigit =
      (k : ℕ)
      → k < 32
      → bit (f (get_or b.bits (i / 32) 0)) k
        ≡ (if i % 32 == k then v else bit (get_or b.bits (i / 32) 0) k)

  get-at_word :
      IsValid b
      → i < b.bit_cnt
      → SetsDigit
      → (j : ℕ) → get (at_word b (elem_idx i) f) j ≡ (if i == j then v == 1 else get b j)
  get-at_word w l h j = elim (ℕ_discrete (i / 32) (j / 32)) [
    | yes p ↦
        rw
          (
            ← p,
            get_or-set_self b.bits (i / 32) (f (get_or b.bits (i / 32) 0)) 0
                (omega (arith, w.words)),
            h (j % 32) (omega arith),
          )
          (ground arith)
    | no ne ↦
        rw (get_or-set_ne b.bits {i = i / 32} {j = j / 32} (f (get_or b.bits (i / 32) 0)) 0 ne)
          (ground arith)
  ]

at_word-IsValid : (b : Bitmap) (i : ℕ) (f : ℕ → ℕ) → IsValid b → IsValid (at_word b i f)
at_word-IsValid b i f w = record {
  words = rw (length-set b.bits i (f (get_or b.bits i 0))) w.words;
  small = w.small;
}

module _ (b : Bitmap) (i : ℕ) (w : IsValid b) (l : i < b.bit_cnt) where
  get-bitmap_mark : (j : ℕ) → get (bitmap_mark b i) j ≡ (if i == j then true else get b j)
  unfolding bitmap_mark
  get-bitmap_mark =
      get-at_word b i 1 (λ u. bit_or u (bit_mask i)) w l
        λ k h.
          rw (bit-or (get_or b.bits (i / 32) 0) (2 ^ (i % 32)) k, bit-pow (i % 32) k)
            (ground (arith, bit-lt-two (get_or b.bits (i / 32) 0) k))

  get-bitmap_reset : (j : ℕ) → get (bitmap_reset b i) j ≡ (if i == j then false else get b j)
  unfolding bitmap_reset
  get-bitmap_reset =
      get-at_word b i 0 (λ u. bit_and u (complement (bit_mask i))) w l
        λ k h.
          rw
            (
              bit-and (get_or b.bits (i / 32) 0) (complement (2 ^ (i % 32))) k,
              bit-complement 32 (2 ^ (i % 32)) k (pow-lt (i % 32) (omega arith)) h,
              bit-pow (i % 32) k,
            )
            (ground (arith, bit-lt-two (get_or b.bits (i / 32) 0) k))

  get-bitmap_flip : (j : ℕ) → get (bitmap_flip b i) j ≡ (if i == j then not (get b j) else get b j)
  unfolding bitmap_flip
  get-bitmap_flip j =
      get-at_word b i ((d + 1) % 2) (λ u. bit_xor u (bit_mask i)) w l
        (λ k h.
          rw (bit-xor (get_or b.bits (i / 32) 0) (2 ^ (i % 32)) k, bit-pow (i % 32) k)
            (ground (arith, bit-lt-two (get_or b.bits (i / 32) 0) k)))
        j
      ∙ flipped
    where
      d : ℕ
      d = bit (get_or b.bits (i / 32) 0) (i % 32)

      flipped :
          (if i == j then (d + 1) % 2 == 1 else get b j)
          ≡ (if i == j then not (get b j) else get b j)
      flipped = elim (Bool-cases (i == j)) [
        | inl e ↦
            rw (e, ← (==_iff i j).0 e)
              (ground (arith, bit-lt-two (get_or b.bits (i / 32) 0) (i % 32)))
        | inr e ↦ rw e
      ]

-- The bitmap b' is b with some bits changed.
pub record Changed (b : Bitmap) (f : ℕ → Bool) (b' : Bitmap) : Type 0 where
  pub valid : IsValid b'
  pub count : b'.bit_cnt ≡ b.bit_cnt
  pub bits : (j : ℕ) → get b' j ≡ f j

-- On a valid bitmap and at an index of it, `bitmap_mark` sets the bit, `bitmap_reset` clears it,
-- `bitmap_flip` inverts it; each keeps the bitmap valid, its size and every other bit.
pub single_bit_lem :
    (b : Bitmap) (i : ℕ)
    → IsValid b
    → i < b.bit_cnt
    → Changed b (λ j. if i == j then true else get b j) (bitmap_mark b i)
      × Changed b (λ j. if i == j then false else get b j) (bitmap_reset b i)
      × Changed b (λ j. if i == j then not (get b j) else get b j) (bitmap_flip b i)
unfolding bitmap_mark bitmap_reset bitmap_flip
single_bit_lem b i w l = (
  record {
    valid = at_word-IsValid b (elem_idx i) (λ u. bit_or u (bit_mask i)) w;
    count = refl;
    bits = get-bitmap_mark b i w l;
  },
  record {
    valid = at_word-IsValid b (elem_idx i) (λ u. bit_and u (complement (bit_mask i))) w;
    count = refl;
    bits = get-bitmap_reset b i w l;
  },
  record {
    valid = at_word-IsValid b (elem_idx i) (λ u. bit_xor u (bit_mask i)) w;
    count = refl;
    bits = get-bitmap_flip b i w l;
  },
)

pub bitmap_set_lem :
    (b : Bitmap) (i : ℕ) (value : Bool)
    → IsValid b
    → i < b.bit_cnt
    → (b' : Bitmap) × (bitmap_set b i value ≡ ok b')
      × Changed b (λ j. if i == j then value else get b j) b'
unfolding bitmap_set
bitmap_set_lem b i true w l = (bitmap_mark b i, rw (lt→ltb _ _ l), (single_bit_lem b i w l).0)
bitmap_set_lem b i false w l = (bitmap_reset b i, rw (lt→ltb _ _ l), (single_bit_lem b i w l).1)
