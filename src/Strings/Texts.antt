-- ===== src/Strings/Texts.antt =====
-- Strings in memory as lists of characters, and what strchr finds in one.
use cs162_group13_clone.Base.{
  ℕ, zero, suc, ◌+◌, ◌%◌, ◌≤◌, ◌<◌, ◌≡◌, ◌≢◌, refl, ap, ◌∙◌, Bool, false, not, ◌||◌, List, [], ◌∷◌,
  ok, length, get_or, ◌==◌, arith, Bool-cases, inl, inr,
}
use cs162_group13_clone.Strings.{Memory, find_char, strchr}

-- The characters from p on, up to a null byte.
abbrev pub IsString : Memory → ℕ → List ℕ → Type 0
IsString m p [] = m p ≡ 0
IsString m p (x ∷ xs) = (m p ≡ x) × (0 < x) × (x < 256) × IsString m (p + 1) xs

-- Whether `strchr` finds a character: the null byte is found in every string.
abbrev pub among : ℕ → List ℕ → Bool
among c [] = 0 == c
among c (x ∷ xs) = (x == c) || among c xs

-- The bytes of a string do not depend on the rest of the memory.
pub IsString-move :
    (m m' : Memory) (p q : ℕ) (xs : List ℕ)
    → ((i : ℕ) → i ≤ length xs → m' (q + i) ≡ m (p + i))
    → IsString m p xs
    → IsString m' q xs
IsString-move m m' p q [] h s = ap m' (omega arith) ∙ h 0 (omega arith) ∙ ap m (omega arith) ∙ s
IsString-move m m' p q (x ∷ xs) h s = (
  ap m' (omega arith) ∙ h 0 (omega arith) ∙ ap m (omega arith) ∙ s.0,
  s.1,
  s.2,
  IsString-move m m' (p + 1) (q + 1) xs
      (λ i l. ap m' (omega arith) ∙ h (suc i) (omega arith) ∙ ap m (omega arith)) s.3,
)

pub IsString-byte :
    (m : Memory) (p : ℕ) (xs : List ℕ)
    → IsString m p xs
    → (i : ℕ) → i ≤ length xs
    → m (p + i) ≡ get_or xs i 0
IsString-byte m p [] s i h = ap m (omega arith) ∙ s
IsString-byte m p (x ∷ xs) s zero h = ap m (omega arith) ∙ s.0
IsString-byte m p (x ∷ xs) s (suc i) h =
    ap m (omega arith) ∙ IsString-byte m (p + 1) xs s.3 i (omega arith)

find_char_lem :
    (fuel : ℕ) (m : Memory) (p c : ℕ) (xs : List ℕ)
    → p ≢ 0
    → IsString m p xs
    → length xs < fuel
    → (q : ℕ) × (find_char fuel m p c ≡ ok q) × ((q == 0) ≡ not (among c xs))
unfolding find_char
find_char_lem zero m p c xs n s h = absurd (omega arith)
find_char_lem (suc fuel) m p c [] n s h = elim (Bool-cases (0 == c)) [
  | inl t ↦ (p, rw (s, t) refl, rw t (ground arith))
  | inr t ↦ (0, rw (s, t) refl, rw t refl)
]
find_char_lem (suc fuel) m p c (x ∷ xs) n s h = elim (Bool-cases (x == c)) [
  | inl t ↦ (p, rw (s.0, t) refl, rw t (ground arith))
  | inr t ↦
      let (q, e, f) = find_char_lem fuel m (p + 1) c xs (omega arith) s.3 (omega arith) in
      let u : (x == 0) ≡ false = let l = s.1 in ground arith in (q, rw (s.0, t, u) e, rw t f)
]

-- `strchr` on a string finds a character if and only if it is in the string or is the null byte.
pub strchr-among :
    (fuel : ℕ) (m : Memory) (p c : ℕ) (xs : List ℕ)
    → p ≢ 0
    → IsString m p xs
    → length xs < fuel
    → c < 256
    → (q : ℕ) × (strchr fuel m p c ≡ ok q) × ((q == 0) ≡ not (among c xs))
unfolding strchr
strchr-among fuel m p c xs n s h l =
    let t : (p == 0) ≡ false = ground arith in
    let w : c % 256 ≡ c = omega arith in
    let (q, e, f) = find_char_lem fuel m p c xs n s h in (q, rw (t, w) e, f)
