-- ===== src/Kernel/Bitmap/Scan.antt =====
-- `bitmap_scan` finds the first group of bits with a value, and `bitmap_scan_and_flip` flips it.
use mathlib.Core.Path.{subst}
use native.Mathlib.Decide.{ℕ_discrete, dec_le}
use cs162_group13_clone.Base.{
  ℕ, zero, suc, ◌+◌, ◌-◌, ◌≤◌, ◌<◌, ◌≡◌, refl, ◌≢◌, inl, inr, ◌==◌, Bool, true, false, not, ok,
  arith, if◌then◌else◌, Bool-cases, ==_iff, ne_of_==,
}
use cs162_group13_clone.Kernel.Bitmap.{
  Bitmap, bool_eq, bitmap_error, scan_from, bitmap_scan, bitmap_scan_and_flip, bitmap_set_multiple,
}
use cs162_group13_clone.Kernel.Bitmap.Bits.{IsValid, get, Changed}
use cs162_group13_clone.Kernel.Bitmap.Range.{
  within, some_in, bitmap_contains_lem, bitmap_set_multiple_lem,
}

-- The cnt bits from i on have the value.
abbrev pub AllAre : (ℕ → Bool) → ℕ → ℕ → Bool → Type 0
AllAre f i cnt value = (k : ℕ) → i ≤ k → k < i + cnt → f k ≡ value

AllAre-next :
    (f : ℕ → Bool) (i n : ℕ) (value : Bool)
    → f i ≡ value
    → AllAre f (i + 1) n value
    → AllAre f i (suc n) value
AllAre-next f i n value h a k p q = elim (ℕ_discrete i k) [
  | yes e ↦ rw (← e) h
  | no ne ↦ a k (omega arith) (omega arith)
]

bool_eq-not : (b v : Bool) → bool_eq b (not v) ≡ false → b ≡ v
bool_eq-not b v h = ground arith

bool_ne : (b v : Bool) → bool_eq b (not v) ≡ true → b ≢ v
bool_ne b v h = ground arith

-- A range has no bit of the other value exactly if it is a group.
some_in-AllAre :
    (f : ℕ → Bool) (i n : ℕ) (value : Bool) → some_in f i n (not value) ≡ false → AllAre f i n value
unfolding some_in
some_in-AllAre f i zero value h = λ k p q. absurd (omega arith)
some_in-AllAre f i (suc n) value h = elim (Bool-cases (bool_eq (f i) (not value))) [
  | inl e ↦ cc (rw e at h)
  | inr e ↦
      AllAre-next f i n value (bool_eq-not (f i) value e)
        (some_in-AllAre f (i + 1) n value (rw e at h))
]

some_in-not-AllAre :
    (f : ℕ → Bool) (i n : ℕ) (value : Bool)
    → some_in f i n (not value) ≡ true
    → ¬ AllAre f i n value
unfolding some_in
some_in-not-AllAre f i zero value h all = cc
some_in-not-AllAre f i (suc n) value h all = elim (Bool-cases (bool_eq (f i) (not value))) [
  | inl e ↦ bool_ne (f i) value e (all i (omega arith) (omega arith))
  | inr e ↦
      some_in-not-AllAre f (i + 1) n value (rw e at h) (λ k p q. all k (omega arith) (omega arith))
]

pub AllAre-some_in :
    (f : ℕ → Bool) (i n : ℕ) (value : Bool) → AllAre f i n value → some_in f i n (not value) ≡ false
AllAre-some_in f i n value all = elim (Bool-cases (some_in f i n (not value))) [
  | inl e ↦ absurd (some_in-not-AllAre f i n value e all)
  | inr e ↦ e
]

pub not-AllAre-some_in :
    (f : ℕ → Bool) (i n : ℕ) (value : Bool)
    → ¬ AllAre f i n value
    → some_in f i n (not value) ≡ true
not-AllAre-some_in f i n value ne = elim (Bool-cases (some_in f i n (not value))) [
  | inl e ↦ e
  | inr e ↦ absurd (ne (some_in-AllAre f i n value e))
]

-- What a scan from `start` on, of bits below `bit_cnt`, may give.
pub data Finds (f : ℕ → Bool) (bit_cnt start cnt : ℕ) (value : Bool) (r : ℕ) : Type 0 where
  nothing :
      r ≡ bitmap_error
      → ((i : ℕ) → start ≤ i → i + cnt ≤ bit_cnt → ¬ AllAre f i cnt value)
      → Finds f bit_cnt start cnt value r
  first :
      start ≤ r
      → r + cnt ≤ bit_cnt
      → AllAre f r cnt value
      → ((i : ℕ) → start ≤ i → i < r → ¬ AllAre f i cnt value)
      → Finds f bit_cnt start cnt value r

still_none :
    {f : ℕ → Bool} {start : ℕ} (cnt : ℕ) {value : Bool} (P : ℕ → Type 0)
    → ¬ AllAre f start cnt value
    → ((i : ℕ) → start + 1 ≤ i → P i → ¬ AllAre f i cnt value)
    → (i : ℕ) → start ≤ i
    → P i
    → ¬ AllAre f i cnt value
still_none {f} {start} cnt {value} P no_group later i p q = elim (ℕ_discrete start i) [
  | yes e ↦ subst (λ k. ¬ AllAre f k cnt value) e no_group
  | no ne ↦ later i (omega arith) q
]

Finds-next :
    {f : ℕ → Bool} {bit_cnt start cnt : ℕ} {value : Bool} {r : ℕ}
    → ¬ AllAre f start cnt value
    → Finds f bit_cnt (start + 1) cnt value r
    → Finds f bit_cnt start cnt value r
Finds-next {bit_cnt = bit_cnt} {cnt = cnt} no_group (nothing e later) =
    nothing e (still_none cnt (λ i. i + cnt ≤ bit_cnt) no_group later)
Finds-next {cnt = cnt} {r = r} no_group (first p q a later) =
    first (omega arith) q a (still_none cnt (λ i. i < r) no_group later)

scan_from_lem :
    (n i : ℕ) (b : Bitmap) (cnt : ℕ) (value : Bool)
    → IsValid b
    → cnt ≤ b.bit_cnt
    → n ≡ b.bit_cnt - cnt + 1 - i
    → (r : ℕ) × (scan_from n i b cnt value ≡ ok r) × Finds (get b) b.bit_cnt i cnt value r
unfolding scan_from
scan_from_lem zero i b cnt value w h e =
    (bitmap_error, refl, nothing refl (λ j p q. absurd (omega arith)))
scan_from_lem (suc n) i b cnt value w h e =
    rw (bitmap_contains_lem b i cnt (not value) w (omega arith))
      (elim (Bool-cases (some_in (get b) i cnt (not value))) [
        | inl t ↦
            let (r, e', x) = scan_from_lem n (i + 1) b cnt value w h (omega arith) in
            rw t (r, e', Finds-next (some_in-not-AllAre (get b) i cnt value t) x)
        | inr t ↦ rw t (
          i,
          refl,
          first (omega arith) (omega arith) (some_in-AllAre (get b) i cnt value t)
              (λ j p q. absurd (omega arith)),
        )
      ])

-- `bitmap_scan` from a place of the bitmap does not panic. It gives the first index at or after
-- `start` where `cnt` bits of the bitmap in a row have the value, or BITMAP_ERROR if there is none.
pub bitmap_scan_lem :
    (b : Bitmap) (start cnt : ℕ) (value : Bool)
    → IsValid b
    → start ≤ b.bit_cnt
    → (r : ℕ) × (bitmap_scan b start cnt value ≡ ok r) × Finds (get b) b.bit_cnt start cnt value r
unfolding bitmap_scan
bitmap_scan_lem b start cnt value w h = elim (dec_le cnt b.bit_cnt) [
  | yes l ↦
      let (r, e, x) = scan_from_lem (b.bit_cnt - cnt + 1 - start) start b cnt value w l refl in
      (r, ground (arith, e), x)
  | no ne ↦ (bitmap_error, ground arith, nothing refl (λ i p q. absurd (omega arith)))
]

-- What a flip of the group at r, if there is one, makes of the bitmap.
pub record Flipped (b : Bitmap) (r cnt : ℕ) (value : Bool) (b' : Bitmap) : Type 0 where
  pub none_found : r ≡ bitmap_error → b' ≡ b
  pub found : r ≢ bitmap_error → Changed b (λ j. if within r cnt j then not value else get b j) b'

flip_lem :
    (b : Bitmap) (start cnt : ℕ) (value : Bool) (r : ℕ)
    → IsValid b
    → Finds (get b) b.bit_cnt start cnt value r
    → (b' : Bitmap) × ((if r == bitmap_error then ok b else bitmap_set_multiple b r cnt (not value))
        ≡ ok b')
      × Flipped b r cnt value b'
flip_lem b start cnt value r w (nothing e later) =
    (b, ground arith, record { none_found = λ p. refl; found = λ ne. absurd (ne e) })
flip_lem b start cnt value r w (first p q a later) = elim (Bool-cases (r == bitmap_error)) [
  | inl e ↦ (
    b,
    rw e,
    record { none_found = λ p. refl; found = λ ne. absurd (ne ((==_iff r bitmap_error).0 e)) },
  )
  | inr e ↦
      let (b', e', x) = bitmap_set_multiple_lem b r cnt (not value) w q in
      (
        b',
        rw e e',
        record { none_found = λ p. absurd (ne_of_== r bitmap_error e p); found = λ ne. x },
      )
]

-- `bitmap_scan_and_flip`, from a start inside the bitmap, gives the first group of `cnt` bits with the
-- value from there on, or BITMAP_ERROR if there is none; it sets exactly the bits of the group found to
-- the other value, or, if there is none, leaves the bitmap as it is. For `cnt` = 0 this is the empty
-- group at the start.
pub bitmap_scan_and_flip_lem :
    (b : Bitmap) (start cnt : ℕ) (value : Bool)
    → IsValid b
    → start ≤ b.bit_cnt
    → (r : ℕ) × (b' : Bitmap) × (bitmap_scan_and_flip b start cnt value ≡ ok (r, b'))
      × Finds (get b) b.bit_cnt start cnt value r
      × Flipped b r cnt value b'
unfolding bitmap_scan_and_flip
bitmap_scan_and_flip_lem b start cnt value w h =
    let (r, e, x) = bitmap_scan_lem b start cnt value w h in
    let (b', e', y) = flip_lem b start cnt value r w x in (r, b', rw (e, e'), x, y)
