-- ===== src/Strings/Compare.antt =====
-- memcmp and strcmp: the first byte that differs decides.
use cs162_group13_clone.Base.{
  ℕ, zero, suc, ◌+◌, ◌<◌, ◌≡◌, ◌≢◌, refl, ap, ◌∙◌, true, false, List, [], ◌∷◌, ok, length, get_or,
  ltb, ◌==◌, arith, Bool-cases, inl, inr,
}
use cs162_group13_clone.Base.Int.{ℤ, pos, negsuc}
use cs162_group13_clone.Strings.{Memory, compare_bytes, compare_strings, strcmp}
use cs162_group13_clone.Strings.Texts.{IsString}

-- How two strings compare: they are the same, or at the first place where they differ, the end
-- counting as 0, one has the smaller character.
pub data Ordered (xs ys : List ℕ) (r : ℤ) : Type 0 where
  same : xs ≡ ys → r ≡ pos 0 → Ordered xs ys r
  smaller :
      (n : ℕ)
      → ((i : ℕ) → i < n → get_or xs i 0 ≡ get_or ys i 0)
      → get_or xs n 0 < get_or ys n 0
      → r ≡ negsuc 0
      → Ordered xs ys r
  greater :
      (n : ℕ)
      → ((i : ℕ) → i < n → get_or xs i 0 ≡ get_or ys i 0)
      → get_or ys n 0 < get_or xs n 0
      → r ≡ pos 1
      → Ordered xs ys r

next_agree :
    (x y : ℕ) (xs ys : List ℕ) (n : ℕ)
    → x ≡ y
    → ((i : ℕ) → i < n → get_or xs i 0 ≡ get_or ys i 0)
    → (i : ℕ) → i < suc n
    → get_or (x ∷ xs) i 0 ≡ get_or (y ∷ ys) i 0
next_agree x y xs ys n e h zero l = e
next_agree x y xs ys n e h (suc i) l = h i (omega arith)

Ordered-next :
    {x y : ℕ} {xs ys : List ℕ} {r : ℤ} → x ≡ y → Ordered xs ys r → Ordered (x ∷ xs) (y ∷ ys) r
Ordered-next e (same h k) = same (cc) k
Ordered-next {x} {y} {xs} {ys} e (smaller n h l k) =
    smaller (suc n) (next_agree x y xs ys n e h) l k
Ordered-next {x} {y} {xs} {ys} e (greater n h l k) =
    greater (suc n) (next_agree x y xs ys n e h) l k

compare_strings_lem :
    (fuel : ℕ) (m : Memory) (a b : ℕ) (xs ys : List ℕ)
    → IsString m a xs
    → IsString m b ys
    → length xs < fuel
    → (r : ℤ) × (compare_strings fuel m a b ≡ ok r) × Ordered xs ys r
unfolding compare_strings
compare_strings_lem zero m a b xs ys s t h = absurd (omega arith)
compare_strings_lem (suc fuel) m a b [] [] s t h = (pos 0, rw (s, t) refl, same refl refl)
compare_strings_lem (suc fuel) m a b [] (y ∷ ys) s t h =
    let l : ltb 0 y ≡ true = let p = t.1 in ground arith in
    (negsuc 0, rw (s, t.0, l) refl, smaller 0 (λ i h. absurd (omega arith)) t.1 refl)
compare_strings_lem (suc fuel) m a b (x ∷ xs) [] s t h =
    let u : (x == 0) ≡ false = let p = s.1 in ground arith in
    let l : ltb x 0 ≡ false = ground arith in
    let g : ltb 0 x ≡ true = let p = s.1 in ground arith in
    (pos 1, rw (s.0, t, u, l, g) refl, greater 0 (λ i h. absurd (omega arith)) s.1 refl)
compare_strings_lem (suc fuel) m a b (x ∷ xs) (y ∷ ys) s t h =
    let u : (x == 0) ≡ false = let p = s.1 in ground arith in
    elim (Bool-cases (x == y)) [
      | inl e ↦
          let same_char : x ≡ y = ground arith in
          let (r, e', o) = compare_strings_lem fuel m (a + 1) (b + 1) xs ys s.3 t.3 (omega arith) in
          (r, rw (s.0, t.0, u, e) e', Ordered-next same_char o)
      | inr e ↦ elim (Bool-cases (ltb x y)) [
        | inl l ↦
            let lt : x < y = ground arith in
            (negsuc 0, rw (s.0, t.0, u, e, l) refl, smaller 0 (λ i h. absurd (omega arith)) lt refl)
        | inr l ↦
            let gt : y < x = ground arith in
            let g : ltb y x ≡ true = ground arith in
            (pos 1, rw (s.0, t.0, u, e, l, g) refl, greater 0 (λ i h. absurd (omega arith)) gt refl)
      ]
    ]

-- `strcmp` of two strings, neither of them null and with more fuel than the first one's length,
-- returns 0 if they are the same, and else -1 or 1 as the first or the second has the smaller
-- character at the first place where they differ.
pub strcmp_lem :
    (fuel : ℕ) (m : Memory) (a b : ℕ) (xs ys : List ℕ)
    → a ≢ 0
    → b ≢ 0
    → IsString m a xs
    → IsString m b ys
    → length xs < fuel
    → (r : ℤ) × (strcmp fuel m a b ≡ ok r) × Ordered xs ys r
unfolding strcmp
strcmp_lem fuel m a b xs ys p q s t h =
    let u : (a == 0) ≡ false = ground arith in
    let v : (b == 0) ≡ false = ground arith in
    let (r, e, o) = compare_strings_lem fuel m a b xs ys s t h in (r, rw (u, v) e, o)

-- `memcmp` of blocks that are not null is 0 if all their bytes are the same.
pub compare_bytes-eq :
    (m : Memory) (a b size : ℕ)
    → ((i : ℕ) → i < size → m (a + i) ≡ m (b + i))
    → compare_bytes m a b size ≡ pos 0
unfolding compare_bytes
compare_bytes-eq m a b zero h = refl
compare_bytes-eq m a b (suc size) h =
    let first : m a ≡ m b = ap m (omega arith) ∙ h 0 (omega arith) ∙ ap m (omega arith) in
    let t : (m b == m b) ≡ true = ground arith in
    rw (first, t)
      (compare_bytes-eq m (a + 1) (b + 1) size
        (λ i l. ap m (omega arith) ∙ h (suc i) (omega arith) ∙ ap m (omega arith)))

-- If it is 0, they are.
pub eq-compare_bytes :
    (m : Memory) (a b size : ℕ)
    → compare_bytes m a b size ≡ pos 0
    → (i : ℕ) → i < size
    → m (a + i) ≡ m (b + i)
unfolding compare_bytes
eq-compare_bytes m a b zero h i l = absurd (omega arith)
eq-compare_bytes m a b (suc size) h i l = elim (Bool-cases (m a == m b)) [
  | inr e ↦ elim (Bool-cases (ltb (m b) (m a))) [
    | inl g ↦ let k = rw (e, g) at h in cc
    | inr g ↦ let k = rw (e, g) at h in cc
  ]
  | inl e ↦
      let k : compare_bytes m (a + 1) (b + 1) size ≡ pos 0 = rw e at h in
      agree i l (ground arith) (eq-compare_bytes m (a + 1) (b + 1) size k)
]
  where
    agree :
        (i : ℕ)
        → i < suc size
        → m a ≡ m b
        → ((i : ℕ) → i < size → m (a + 1 + i) ≡ m (b + 1 + i))
        → m (a + i) ≡ m (b + i)
    agree zero l e h = ap m (omega arith) ∙ e ∙ ap m (omega arith)
    agree (suc i) l e h = ap m (omega arith) ∙ h i (omega arith) ∙ ap m (omega arith)
