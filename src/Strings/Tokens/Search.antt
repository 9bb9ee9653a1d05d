-- ===== src/Strings/Tokens/Search.antt =====
-- strstr finds the first place where the needle stands.
use mathlib.Core.Path.{subst}
use native.Mathlib.Decide.{ℕ_discrete}
use cs162_group13_clone.Base.{
  ℕ, zero, suc, ◌+◌, ◌-◌, ◌≤◌, ◌<◌, ◌≡◌, ◌≢◌, refl, sym, ap, ◌∙◌, true, false, List, Outcome, ok,
  length, get_or, leb, ◌==◌, arith, Bool-cases, inl, inr,
}
use cs162_group13_clone.Base.Int.{ℤ, pos, negsuc}
use cs162_group13_clone.Strings.{Memory, compare_bytes, memcmp}
use cs162_group13_clone.Strings.Texts.{IsString, IsString-byte}
use cs162_group13_clone.Strings.Compare.{compare_bytes-eq, eq-compare_bytes}
use cs162_group13_clone.Strings.Bounded.Copies.{strlen_lem}
use cs162_group13_clone.Strings.Tokens.{is_zero, search_from, strstr}

-- The needle stands at a place of the haystack.
abbrev pub Matches : List ℕ → List ℕ → ℕ → Type 0
Matches xs ys i = (k : ℕ) → k < length ys → get_or xs (i + k) 0 ≡ get_or ys k 0

pub data Found (haystack : ℕ) (xs ys : List ℕ) (r : Outcome ℕ) : Type 0 where
  at_place :
      (i : ℕ)
      → i + length ys ≤ length xs
      → Matches xs ys i
      → ((j : ℕ) → j < i → ¬ Matches xs ys j)
      → r ≡ ok (haystack + i)
      → Found haystack xs ys r
  nowhere :
      ((j : ℕ) → j + length ys ≤ length xs → ¬ Matches xs ys j) → r ≡ ok 0 → Found haystack xs ys r

is_zero-eq : (z : ℤ) → is_zero z ≡ true → z ≡ pos 0
is_zero-eq (pos n) h = let e : n ≡ 0 = ground arith in ap pos e
is_zero-eq (negsuc n) h = absurd cc

module _ (m : Memory) (haystack needle : ℕ) (xs ys : List ℕ) (p : haystack ≢ 0) (q : needle ≢ 0)
    (s : IsString m haystack xs) (t : IsString m needle ys) where
  same_bytes :
      (i : ℕ)
      → i + length ys ≤ length xs
      → Matches xs ys i
      → compare_bytes m (haystack + i) needle (length ys) ≡ pos 0
  same_bytes i l h = compare_bytes-eq m (haystack + i) needle (length ys) (λ k w.
      ap m (omega arith)
      ∙ IsString-byte m haystack xs s (i + k) (omega arith)
      ∙ h k w
      ∙ sym (IsString-byte m needle ys t k (omega arith)))

  bytes_match :
      (i : ℕ)
      → i + length ys ≤ length xs
      → compare_bytes m (haystack + i) needle (length ys) ≡ pos 0
      → Matches xs ys i
  bytes_match i l h k w =
      sym (IsString-byte m haystack xs s (i + k) (omega arith))
      ∙ ap m (omega arith)
      ∙ eq-compare_bytes m (haystack + i) needle (length ys) h k w
      ∙ IsString-byte m needle ys t k (omega arith)

  search_from_lem :
      (rounds i : ℕ)
      → i + rounds + length ys ≡ length xs + 1
      → ((j : ℕ) → j < i → ¬ Matches xs ys j)
      → Found haystack xs ys (search_from rounds m haystack needle (length ys) i)
  unfolding search_from memcmp
  search_from_lem zero i e h = nowhere (λ j l. h j (omega arith)) refl
  search_from_lem (suc rounds) i e h =
      let u : (haystack + i == 0) ≡ false = ground arith in
      let v : (needle == 0) ≡ false = ground arith in
      elim (Bool-cases (is_zero (compare_bytes m (haystack + i) needle (length ys)))) [
        | inl z ↦
            at_place i (omega arith)
              (bytes_match i (omega arith)
                (is_zero-eq (compare_bytes m (haystack + i) needle (length ys)) z))
              h (rw (u, v, z) refl)
        | inr z ↦ rw (u, v, z) (search_from_lem rounds (i + 1) (omega arith) (λ j l. before j l z))
      ]
    where
      before :
          (j : ℕ)
          → j < i + 1
          → is_zero (compare_bytes m (haystack + i) needle (length ys)) ≡ false
          → ¬ Matches xs ys j
      before j l z w = elim (ℕ_discrete j i) [
        | no ne ↦ h j (omega arith) w
        | yes same ↦
            let at : Matches xs ys i = subst (λ (k : ℕ). Matches xs ys k) same w in
            let zero_there = same_bytes i (omega arith) at in
            absurd (let k = rw zero_there at z in cc)
      ]

-- `strstr` on strings that are not null, with more fuel than either length, returns the first place
-- of the haystack at which the needle stands, or null if there is none. (The empty needle stands
-- at the start.)
pub strstr_lem :
    (fuel : ℕ) (m : Memory) (haystack needle : ℕ) (xs ys : List ℕ)
    → haystack ≢ 0
    → needle ≢ 0
    → IsString m haystack xs
    → IsString m needle ys
    → length xs < fuel
    → length ys < fuel
    → Found haystack xs ys (strstr fuel m haystack needle)
unfolding strstr
strstr_lem fuel m haystack needle xs ys p q s t h k =
    let a = strlen_lem fuel m haystack xs p s h in
    let b = strlen_lem fuel m needle ys q t k in
    elim (Bool-cases (leb (length ys) (length xs))) [
      | inl e ↦
          let l : length ys ≤ length xs = ground arith in
          rw (a, b, e)
            (search_from_lem m haystack needle xs ys p q s t (length xs - length ys + 1) 0
              (omega arith) (λ j l. absurd (omega arith)))
      | inr e ↦
          let l : length xs < length ys = ground arith in
          rw (a, b, e) (nowhere (λ j o. absurd (omega arith)) refl)
    ]
