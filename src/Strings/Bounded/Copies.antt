-- ===== src/Strings/Bounded/Copies.antt =====
-- strlcpy and strlcat: the strings that they leave, and that they write inside their bound only.
use mathlib.Core.Path.{subst}
use native.Mathlib.Decide.{dec_lt}
use cs162_group13_clone.Base.{
  ℕ, zero, suc, ◌+◌, ◌-◌, ◌≤◌, ◌<◌, ◌≡◌, ◌≢◌, refl, ap, ◌∙◌, min, true, false, ◌&&◌, List, [], ◌∷◌,
  ◌++◌, ok, length, ltb, leb, ◌==◌, if◌then◌else◌, arith,
}
use cs162_group13_clone.Devices.Block.{update}
use cs162_group13_clone.Strings.{Memory}
use cs162_group13_clone.Strings.Copy.{copied, memcpy_lem}
use cs162_group13_clone.Strings.Texts.{IsString, IsString-move}
use cs162_group13_clone.Strings.Bounded.{count_chars, strlen, strlcpy, strlcat}

abbrev pub take : ℕ → List ℕ → List ℕ
take zero xs = []
take (suc n) [] = []
take (suc n) (x ∷ xs) = x ∷ take n xs

length-take : (n : ℕ) (xs : List ℕ) → length (take n xs) ≡ min n (length xs)
length-take zero xs = omega arith
length-take (suc n) [] = omega arith
length-take (suc n) (x ∷ xs) = omega (arith, length-take n xs)

count_chars_lem :
    (fuel : ℕ) (m : Memory) (p n : ℕ) (xs : List ℕ)
    → IsString m p xs
    → length xs < fuel
    → count_chars fuel m p n ≡ ok (n + length xs)
unfolding count_chars
count_chars_lem zero m p n xs s h = absurd (omega arith)
count_chars_lem (suc fuel) m p n [] s h = let z : n ≡ n + 0 = omega arith in rw s (ap ok z)
count_chars_lem (suc fuel) m p n (x ∷ xs) s h =
    let t : (x == 0) ≡ false = let l = s.1 in ground arith in
    let z : n + 1 + length xs ≡ n + length (x ∷ xs) = omega arith in
    rw (s.0, t) (count_chars_lem fuel m (p + 1) (n + 1) xs s.3 (omega arith) ∙ ap ok z)

-- `strlen` of a string is its length, with more fuel than that.
pub strlen_lem :
    (fuel : ℕ) (m : Memory) (p : ℕ) (xs : List ℕ)
    → p ≢ 0
    → IsString m p xs
    → length xs < fuel
    → strlen fuel m p ≡ ok (length xs)
unfolding strlen
strlen_lem fuel m p xs n s h =
    let t : (p == 0) ≡ false = ground arith in
    let z : 0 + length xs ≡ length xs = omega arith in
    rw t (count_chars_lem fuel m p 0 xs s h ∙ ap ok z)

-- The first characters of a string, with a null byte put behind them.
cut_off :
    (m : Memory) (p n : ℕ) (xs : List ℕ)
    → IsString m p xs
    → IsString (update m (p + min n (length xs)) 0) p (take n xs)
cut_off m p zero xs s = let t : (p == p + min 0 (length xs)) ≡ true = ground arith in rw t refl
cut_off m p (suc n) [] s = let t : (p == p + min (suc n) 0) ≡ true = ground arith in rw t refl
cut_off m p (suc n) (x ∷ xs) s =
    let t : (p == p + min (suc n) (length (x ∷ xs))) ≡ false = ground arith in
    let z : p + 1 + min n (length xs) ≡ p + min (suc n) (length (x ∷ xs)) = omega arith in
    (
      rw t s.0,
      s.1,
      s.2,
      subst (λ (e : ℕ). IsString (update m e 0) (p + 1) (take n xs)) z (cut_off m (p + 1) n xs s.3),
    )

-- The memory with the first n characters of a string, and a null byte, at another place.
abbrev pub placed : Memory → ℕ → ℕ → ℕ → Memory
placed m dst src n = update (copied m dst src n) (dst + n) 0

placed-IsString :
    (m : Memory) (dst src n : ℕ) (xs : List ℕ)
    → IsString m src xs
    → IsString (placed m dst src (min n (length xs))) dst (take n xs)
placed-IsString m dst src n xs s =
    IsString-move (update m (src + min n (length xs)) 0) (placed m dst src (min n (length xs))) src
      dst (take n xs) same (cut_off m src n xs s)
  where
    same :
        (i : ℕ)
        → i ≤ length (take n xs)
        → placed m dst src (min n (length xs)) (dst + i)
          ≡ update m (src + min n (length xs)) 0 (src + i)
    same i l = elim (dec_lt i (min n (length xs))) [
      | yes h ↦
          let t : (dst + i == dst + min n (length xs)) ≡ false = ground arith in
          let u : (src + i == src + min n (length xs)) ≡ false = ground arith in
          let w : (leb dst (dst + i) && ltb (dst + i) (dst + min n (length xs))) ≡ true =
            ground arith in
          rw (t, u, w) (ap m (omega arith))
      | no h ↦
          let e : i ≡ min n (length xs) = omega (arith, length-take n xs) in
          let t : (dst + i == dst + min n (length xs)) ≡ true = ground arith in
          let u : (src + i == src + min n (length xs)) ≡ true = ground arith in rw (t, u) refl
    ]

placed_outside :
    (m : Memory) (dst src n j : ℕ) → (dst ≤ j → dst + n < j) → placed m dst src n j ≡ m j
placed_outside m dst src n j h =
    let t : (j == dst + n) ≡ false = ground arith in
    let u : (leb dst j && ltb j (dst + n)) ≡ false = ground arith in rw (t, u) refl

-- `strlcpy` from a string into a block of at least one byte that does not start inside the string
-- (its first byte apart): it returns the string's length, leaves the string cut to one character less than the block
-- has bytes at the block's start, and writes nothing outside the block. The fuel is more than the
-- length.
pub strlcpy_lem :
    (fuel : ℕ) (m : Memory) (dst src size : ℕ) (xs : List ℕ)
    → dst ≢ 0
    → src ≢ 0
    → 0 < size
    → IsString m src xs
    → length xs < fuel
    → (src < dst → src + length xs < dst)
    → (m' : Memory) × (strlcpy fuel m dst src size ≡ ok (length xs, m'))
      × IsString m' dst (take (size - 1) xs)
      × ((j : ℕ) → (dst ≤ j → dst + size ≤ j) → m' j ≡ m j)
unfolding strlcpy
strlcpy_lem fuel m dst src size xs p q l s h apart =
    let t : (dst == 0) ≡ false = ground arith in
    let u : (src == 0) ≡ false = ground arith in
    let n = size - 1 in
    let v : ltb 0 size ≡ true = ground arith in
    let len : (if ltb (length xs) n then length xs else n) ≡ min n (length xs) = ground arith in
    let copy = memcpy_lem m dst src (min n (length xs)) p q (λ l. let r = apart l in omega arith) in
    (
      placed m dst src (min n (length xs)),
      rw (t, u, strlen_lem fuel m src xs q s h, v, len, copy) refl,
      placed-IsString m dst src n xs s,
      λ j o. placed_outside m dst src (min n (length xs)) j (λ r. let w = o r in omega arith),
    )

joined :
    (m m' : Memory) (p : ℕ) (ys zs : List ℕ)
    → IsString m p ys
    → ((i : ℕ) → i < length ys → m' (p + i) ≡ m (p + i))
    → IsString m' (p + length ys) zs
    → IsString m' p (ys ++ zs)
joined m m' p [] zs s h r =
    let z : p + 0 ≡ p = omega arith in subst (λ (j : ℕ). IsString m' j zs) z r
joined m m' p (y ∷ ys) zs s h r =
    let z : p + length (y ∷ ys) ≡ p + 1 + length ys = omega arith in
    let first : m' p ≡ m p = ap m' (omega arith) ∙ h 0 (omega arith) ∙ ap m (omega arith) in
    (
      first ∙ s.0,
      s.1,
      s.2,
      joined m m' (p + 1) ys zs s.3
          (λ i l. ap m' (omega arith) ∙ h (suc i) (omega arith) ∙ ap m (omega arith))
          (subst (λ (j : ℕ). IsString m' j zs) z r),
    )

-- `strlcat` of a string to one that is shorter than the block of `size` bytes it stands in, where
-- the second one's null byte does not lie inside the first: it returns the sum of the lengths,
-- leaves the two strings in a row, cut to size - 1 characters, and writes nothing outside the
-- block. The fuel is more than either length.
pub strlcat_lem :
    (fuel : ℕ) (m : Memory) (dst src size : ℕ) (xs ys : List ℕ)
    → dst ≢ 0
    → src ≢ 0
    → IsString m src xs
    → IsString m dst ys
    → length xs < fuel
    → length ys < fuel
    → length ys < size
    → (src < dst + length ys → src + length xs < dst + length ys)
    → (m' : Memory) × (strlcat fuel m dst src size ≡ ok (length xs + length ys, m'))
      × IsString m' dst (ys ++ take (size - length ys - 1) xs)
      × ((j : ℕ) → (dst ≤ j → dst + size ≤ j) → m' j ≡ m j)
unfolding strlcat
strlcat_lem fuel m dst src size xs ys p q s r h k l apart =
    let t : (dst == 0) ≡ false = ground arith in
    let u : (src == 0) ≡ false = ground arith in
    let n = size - length ys - 1 in
    let cnt = min n (length xs) in
    let v : (ltb 0 size && ltb (length ys) size) ≡ true = ground arith in
    let len : (if ltb (length xs) n then length xs else n) ≡ cnt = ground arith in
    let copy =
      memcpy_lem m (dst + length ys) src cnt (omega arith) q
        (λ l. let r = apart l in omega arith) in
    let away : (j : ℕ)
        → (dst + length ys ≤ j → dst + length ys + cnt < j)
        → placed m (dst + length ys) src cnt j ≡ m j =
      λ j h. placed_outside m (dst + length ys) src cnt j h in
    (
      placed m (dst + length ys) src cnt,
      rw (t, u, strlen_lem fuel m src xs q s h, strlen_lem fuel m dst ys p r k, v, len, copy) refl,
      joined m (placed m (dst + length ys) src cnt) dst ys (take n xs) r
          (λ i l. away (dst + i) (λ w. omega arith))
          (placed-IsString m (dst + length ys) src n xs s),
      λ j o. away j (λ w. let z = o (omega arith) in omega arith),
    )
