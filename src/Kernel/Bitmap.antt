-- ===== src/Kernel/Bitmap.antt =====
-- pintos/src/lib/kernel/bitmap.c: an array of bits in 32-bit words (`unsigned long` on the 80x86).
-- A failed ASSERT is `panic`. `malloc` is an argument of `bitmap_create` that says whether it
-- succeeds; a `size_t` sum wraps at 2^32. A write past `bits` changes nothing here: `IsValid`
-- rules it out.
pub mod Bits
pub mod Range
pub mod Scan
mod Tests
use Prim.Native.Nat.{bit_and, bit_or, bit_xor}
use cs162_group13_clone.Base.{
  ℕ, zero, suc, ◌+◌, ◌-◌, ◌*◌, ◌/◌, ◌%◌, ◌^◌, ◌==◌, Bool, true, false, not, ◌&&◌, ◌||◌, List,
  Option, none, some, Outcome, ok, assert, ◌>>=◌, ◌>>◌, ltb, leb, if◌then◌else◌, replicate, get_or,
  set,
}

pub record Bitmap : Type 0 where
  pub bit_cnt : ℕ
  pub bits : List ℕ

-- ELEM_BITS
abbrev pub elem_bits : ℕ
elem_bits = 32

abbrev pub elem_idx : ℕ → ℕ
elem_idx bit_idx = bit_idx / elem_bits

abbrev pub bit_mask : ℕ → ℕ
bit_mask bit_idx = 2 ^ (bit_idx % elem_bits)

abbrev pub elem_cnt : ℕ → ℕ
elem_cnt bit_cnt = (bit_cnt + elem_bits - 1) / elem_bits

abbrev pub byte_cnt : ℕ → ℕ
byte_cnt bit_cnt = 4 * elem_cnt bit_cnt

abbrev pub add_size : ℕ → ℕ → ℕ
add_size a b = (a + b) % 2 ^ 32

-- BITMAP_ERROR, SIZE_MAX
abbrev pub bitmap_error : ℕ
bitmap_error = 2 ^ 32 - 1

abbrev pub bool_eq : Bool → Bool → Bool
bool_eq true b = b
bool_eq false b = not b

-- ~mask
abbrev pub complement : ℕ → ℕ
complement mask = 2 ^ 32 - 1 - mask

abbrev pub at_word : Bitmap → ℕ → (ℕ → ℕ) → Bitmap
at_word b idx f = record b { bits = set b.bits idx (f (get_or b.bits idx 0)) }

unfoldable pub bitmap_mark : Bitmap → ℕ → Bitmap
bitmap_mark b bit_idx = at_word b (elem_idx bit_idx) (λ w. bit_or w (bit_mask bit_idx))

unfoldable pub bitmap_reset : Bitmap → ℕ → Bitmap
bitmap_reset b bit_idx =
    at_word b (elem_idx bit_idx) (λ w. bit_and w (complement (bit_mask bit_idx)))

unfoldable pub bitmap_flip : Bitmap → ℕ → Bitmap
bitmap_flip b bit_idx = at_word b (elem_idx bit_idx) (λ w. bit_xor w (bit_mask bit_idx))

unfoldable pub bitmap_set : Bitmap → ℕ → Bool → Outcome Bitmap
bitmap_set b idx value =
    assert (ltb idx b.bit_cnt) >> ok (if value then bitmap_mark b idx else bitmap_reset b idx)

unfoldable pub bitmap_test : Bitmap → ℕ → Outcome Bool
bitmap_test b idx =
    assert (ltb idx b.bit_cnt)
    >> ok (not (bit_and (get_or b.bits (elem_idx idx) 0) (bit_mask idx) == 0))

-- The two range assertions of the operations on several bits.
abbrev pub check_range : Bitmap → ℕ → ℕ → Outcome (Unit {0})
check_range b start cnt =
    assert (leb start b.bit_cnt) >> assert (leb (add_size start cnt) b.bit_cnt)

-- The loop of `bitmap_set_multiple`, with n rounds left.
unfoldable pub set_from : ℕ → ℕ → Bitmap → Bool → Outcome Bitmap
set_from zero i b value = ok b
set_from (suc n) i b value = do b' ← bitmap_set b (i % 2 ^ 32) value; set_from n (i + 1) b' value

unfoldable pub bitmap_set_multiple : Bitmap → ℕ → ℕ → Bool → Outcome Bitmap
bitmap_set_multiple b start cnt value = check_range b start cnt >> set_from cnt start b value

unfoldable pub bitmap_set_all : Bitmap → Bool → Outcome Bitmap
bitmap_set_all b value = bitmap_set_multiple b 0 b.bit_cnt value

unfoldable pub count_from : ℕ → ℕ → Bitmap → Bool → ℕ → Outcome ℕ
count_from zero i b value value_cnt = ok value_cnt
count_from (suc n) i b value value_cnt = do
  t ← bitmap_test b (i % 2 ^ 32)
  count_from n (i + 1) b value (if bool_eq t value then value_cnt + 1 else value_cnt)

unfoldable pub bitmap_count : Bitmap → ℕ → ℕ → Bool → Outcome ℕ
bitmap_count b start cnt value = check_range b start cnt >> count_from cnt start b value 0

unfoldable pub contains_from : ℕ → ℕ → Bitmap → Bool → Outcome Bool
contains_from zero i b value = ok false
contains_from (suc n) i b value = do
  t ← bitmap_test b (i % 2 ^ 32)
  elim (bool_eq t value) [ true ↦ ok true | false ↦ contains_from n (i + 1) b value ]

unfoldable pub bitmap_contains : Bitmap → ℕ → ℕ → Bool → Outcome Bool
bitmap_contains b start cnt value = check_range b start cnt >> contains_from cnt start b value

unfoldable pub bitmap_any : Bitmap → ℕ → ℕ → Outcome Bool
bitmap_any b start cnt = bitmap_contains b start cnt true

unfoldable pub bitmap_none : Bitmap → ℕ → ℕ → Outcome Bool
bitmap_none b start cnt = do ok (not (← bitmap_contains b start cnt true))

unfoldable pub bitmap_all : Bitmap → ℕ → ℕ → Outcome Bool
bitmap_all b start cnt = do ok (not (← bitmap_contains b start cnt false))

-- The loop of `bitmap_scan` from i, with n rounds left until i passes `last`.
unfoldable pub scan_from : ℕ → ℕ → Bitmap → ℕ → Bool → Outcome ℕ
scan_from zero i b cnt value = ok bitmap_error
scan_from (suc n) i b cnt value = do
  c ← bitmap_contains b i cnt (not value)
  elim c [ true ↦ scan_from n (i + 1) b cnt value | false ↦ ok i ]

unfoldable pub bitmap_scan : Bitmap → ℕ → ℕ → Bool → Outcome ℕ
bitmap_scan b start cnt value =
    assert (leb start b.bit_cnt)
    >> (if leb cnt b.bit_cnt
        then scan_from (b.bit_cnt - cnt + 1 - start) start b cnt value
        else ok bitmap_error)

-- The index found, and the bitmap.
unfoldable pub bitmap_scan_and_flip : Bitmap → ℕ → ℕ → Bool → Outcome (ℕ × Bitmap)
bitmap_scan_and_flip b start cnt value = do
  idx ← bitmap_scan b start cnt value
  b' ← if idx == bitmap_error then ok b else bitmap_set_multiple b idx cnt (not value)
  ok (idx, b')

-- `mem` and `mem_bits` say whether the two calls of `malloc` give memory; `garbage` is what the
-- second one's memory holds.
unfoldable pub bitmap_create : (mem mem_bits : Bool) → List ℕ → ℕ → Outcome (Option Bitmap)
bitmap_create mem mem_bits garbage bit_cnt =
    if mem && (mem_bits || bit_cnt == 0)
    then (do b ← bitmap_set_all (record { bit_cnt = bit_cnt; bits = garbage }) false; ok (some b))
    else ok none
