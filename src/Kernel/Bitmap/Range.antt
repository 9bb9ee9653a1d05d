-- ===== src/Kernel/Bitmap/Range.antt =====
-- The operations on several bits: each is what it says of the bits of the range.
use native.Mathlib.Nat.{mod-eq_of_lt}
use cs162_group13_clone.Base.{
  ℕ, zero, suc, ◌+◌, ◌^◌, ◌≤◌, ◌<◌, ◌≡◌, refl, ap, ◌∙◌, inl, inr, Bool, true, false, ◌&&◌, ok, ◌>>◌,
  arith, if◌then◌else◌, Bool-cases, ltb, leb, List, length, some, Outcome,
}
use cs162_group13_clone.Kernel.Bitmap.{
  Bitmap, bool_eq, check_range, set_from, bitmap_set_multiple, contains_from, bitmap_contains,
  count_from, bitmap_count, bitmap_set_all, bitmap_create, elem_cnt,
}
use cs162_group13_clone.Kernel.Bitmap.Bits.{IsValid, get, Changed, bitmap_test_lem, bitmap_set_lem}

-- i lies in the range of cnt indices from start on.
abbrev pub within : ℕ → ℕ → ℕ → Bool
within start cnt i = leb start i && ltb i (start + cnt)

pub check_range_lem :
    {B : Type 0} (b : Bitmap) (start cnt : ℕ) (k : Outcome B)
    → IsValid b
    → start + cnt ≤ b.bit_cnt
    → (check_range b start cnt >> k) ≡ k
check_range_lem b start cnt k w h = ground (arith, mod-eq_of_lt {n = start + cnt} {m = 2 ^ 32})

set_from_lem :
    (n i : ℕ) (b : Bitmap) (value : Bool)
    → IsValid b
    → i + n ≤ b.bit_cnt
    → (b' : Bitmap) × (set_from n i b value ≡ ok b')
      × Changed b (λ j. if within i n j then value else get b j) b'
unfolding set_from
set_from_lem zero i b value w h =
    (b, refl, record { valid = w; count = refl; bits = λ j. ground arith })
set_from_lem (suc n) i b value w h =
    let (b', e, x) = bitmap_set_lem b i value w (omega arith) in
    let (b'', e', x') = set_from_lem n (i + 1) b' value x.valid (omega (arith, x.count)) in
    (
      b'',
      rw (mod-eq_of_lt {n = i} {m = 2 ^ 32} (omega (arith, w.small)), e) e',
      record {
        valid = x'.valid;
        count = x'.count ∙ x.count;
        bits = λ j. x'.bits j ∙ ground (arith, x.bits j);
      },
    )

-- `bitmap_set_multiple` on a range of the bitmap does not panic; it sets the bits of the range to
-- the value and keeps every other bit, the size and validity.
pub bitmap_set_multiple_lem :
    (b : Bitmap) (start cnt : ℕ) (value : Bool)
    → IsValid b
    → start + cnt ≤ b.bit_cnt
    → (b' : Bitmap) × (bitmap_set_multiple b start cnt value ≡ ok b')
      × Changed b (λ j. if within start cnt j then value else get b j) b'
unfolding bitmap_set_multiple
bitmap_set_multiple_lem b start cnt value w h =
    rw (check_range_lem b start cnt (set_from cnt start b value) w h)
      (set_from_lem cnt start b value w h)

-- Given memory for its words, `bitmap_create` gives a valid bitmap of the size asked for with every
-- bit clear, whatever the memory held.
pub bitmap_create_lem :
    (garbage : List ℕ) (bit_cnt : ℕ)
    → bit_cnt < 2 ^ 32
    → elem_cnt bit_cnt ≤ length garbage
    → (b : Bitmap) × (bitmap_create true true garbage bit_cnt ≡ ok (some b))
      × IsValid b
      × (b.bit_cnt ≡ bit_cnt)
      × ((j : ℕ) → j < bit_cnt → get b j ≡ false)
unfolding bitmap_create bitmap_set_all
bitmap_create_lem garbage bit_cnt s h =
    let raw : Bitmap = record { bit_cnt = bit_cnt; bits = garbage } in
    let (b, e, x) =
      bitmap_set_multiple_lem raw 0 bit_cnt false (record { words = h; small = s }) (omega arith) in
    (b, rw e, x.valid, x.count, λ j l. x.bits j ∙ ground arith)

-- Some bit of the range has the value.
unfoldable pub some_in : (ℕ → Bool) → ℕ → ℕ → Bool → Bool
some_in f i zero value = false
some_in f i (suc n) value = if bool_eq (f i) value then true else some_in f (i + 1) n value

-- How many bits of the range have the value.
unfoldable pub count_in : (ℕ → Bool) → ℕ → ℕ → Bool → ℕ
count_in f i zero value = 0
count_in f i (suc n) value = (if bool_eq (f i) value then 1 else 0) + count_in f (i + 1) n value

contains_from_lem :
    (n i : ℕ) (b : Bitmap) (value : Bool)
    → IsValid b
    → i + n ≤ b.bit_cnt
    → contains_from n i b value ≡ ok (some_in (get b) i n value)
unfolding contains_from some_in
contains_from_lem zero i b value w h = refl
contains_from_lem (suc n) i b value w h =
    rw
      (
        mod-eq_of_lt {n = i} {m = 2 ^ 32} (omega (arith, w.small)),
        bitmap_test_lem b i (omega arith),
      )
      (ground (arith, contains_from_lem n (i + 1) b value w))

pub bitmap_contains_lem :
    (b : Bitmap) (start cnt : ℕ) (value : Bool)
    → IsValid b
    → start + cnt ≤ b.bit_cnt
    → bitmap_contains b start cnt value ≡ ok (some_in (get b) start cnt value)
unfolding bitmap_contains
bitmap_contains_lem b start cnt value w h =
    check_range_lem b start cnt (contains_from cnt start b value) w h
    ∙ contains_from_lem cnt start b value w h

count_from_lem :
    (n i : ℕ) (b : Bitmap) (value : Bool) (acc : ℕ)
    → IsValid b
    → i + n ≤ b.bit_cnt
    → count_from n i b value acc ≡ ok (acc + count_in (get b) i n value)
unfolding count_from count_in
count_from_lem zero i b value acc w h = ap ok (omega arith)
count_from_lem (suc n) i b value acc w h =
    rw
      (
        mod-eq_of_lt {n = i} {m = 2 ^ 32} (omega (arith, w.small)),
        bitmap_test_lem b i (omega arith),
      )
      (elim (Bool-cases (bool_eq (get b i) value)) [
        | inl e ↦
            rw e (count_from_lem n (i + 1) b value (acc + 1) w (omega arith) ∙ ap ok (omega arith))
        | inr e ↦ rw e (count_from_lem n (i + 1) b value acc w (omega arith) ∙ ap ok (omega arith))
      ])

-- `bitmap_count` on a range of the bitmap counts the bits of the range that have the value.
pub bitmap_count_lem :
    (b : Bitmap) (start cnt : ℕ) (value : Bool)
    → IsValid b
    → start + cnt ≤ b.bit_cnt
    → bitmap_count b start cnt value ≡ ok (count_in (get b) start cnt value)
unfolding bitmap_count
bitmap_count_lem b start cnt value w h =
    check_range_lem b start cnt (count_from cnt start b value 0) w h
    ∙ count_from_lem cnt start b value 0 w h
    ∙ ap ok (omega arith)
