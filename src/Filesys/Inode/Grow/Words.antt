-- ===== src/Filesys/Inode/Grow/Words.antt =====
-- The words of a sector after one of them is written.
use mathlib.Core.Path.{subst}
use native.Mathlib.Decide.{dec_lt, dec_le}
use cs162_group13_clone.Base.{
  ℕ, zero, suc, ◌+◌, ◌-◌, ◌*◌, ◌%◌, ◌^◌, ◌≤◌, ◌<◌, ◌≡◌, ◌≢◌, refl, ap, ◌∙◌, List, [], ◌∷◌, get_or,
  length, arith,
}
use cs162_group13_clone.Devices.Block.{Sector}
use cs162_group13_clone.Filesys.Inode.{word}
use cs162_group13_clone.Filesys.Inode.Data.{overwrite}
use cs162_group13_clone.Filesys.Inode.Data.Bytes.{
  length-overwrite, overwrite-outside, overwrite-inside, bytes-eq,
}
use cs162_group13_clone.Filesys.Inode.Grow.{word_bytes, set_word}

-- Each element is a byte.
abbrev pub AreBytes : Sector → Type 0
AreBytes b = (j : ℕ) → j < length b → get_or b j 0 < 256

pub length-set_word : (b : Sector) (i w : ℕ) → length (set_word b i w) ≡ length b
unfolding set_word
length-set_word b i w = length-overwrite b (4 * i) (word_bytes w)

set_word_byte :
    (b : Sector) (i w k : ℕ)
    → 4 * i + 4 ≤ length b
    → k < 4
    → get_or (set_word b i w) (4 * i + k) 0 ≡ get_or (word_bytes w) k 0
unfolding set_word
set_word_byte b i w k l h = overwrite-inside b (4 * i) (word_bytes w) k l h

pub word-set_word_self :
    (b : Sector) (i w : ℕ) → 4 * i + 4 ≤ length b → w < 2 ^ 32 → word (set_word b i w) i ≡ w
unfolding word
word-set_word_self b i w l h =
    let b0 = set_word_byte b i w 0 l (omega arith) in
    let b1 = set_word_byte b i w 1 l (omega arith) in
    let b2 = set_word_byte b i w 2 l (omega arith) in
    let b3 = set_word_byte b i w 3 l (omega arith) in
    let e : get_or (set_word b i w) (4 * i) 0 ≡ w % 256 =
      ap (λ (j : ℕ). get_or (set_word b i w) j 0) (omega arith) ∙ b0 in
    omega arith

pub word-set_word_ne : (b : Sector) {i j : ℕ} (w : ℕ) → i ≢ j → word (set_word b i w) j ≡ word b j
unfolding word set_word
word-set_word_ne b {i} {j} w h =
    let far : (k : ℕ)
        → k < 4
        → get_or (overwrite b (4 * i) (word_bytes w)) (4 * j + k) 0 ≡ get_or b (4 * j + k) 0 =
      λ k l. overwrite-outside b (4 * i) (word_bytes w) (4 * j + k) (λ p. omega arith) in
    let e : get_or (overwrite b (4 * i) (word_bytes w)) (4 * j) 0 ≡ get_or b (4 * j) 0 =
      overwrite-outside b (4 * i) (word_bytes w) (4 * j) (λ p. omega arith) in
    rw (e, far 1 (omega arith), far 2 (omega arith), far 3 (omega arith)) refl

overwrite_same :
    (b : Sector) (i : ℕ) (xs : List ℕ)
    → i + length xs ≤ length b
    → ((k : ℕ) → k < length xs → get_or xs k 0 ≡ get_or b (i + k) 0)
    → overwrite b i xs ≡ b
overwrite_same b i xs l h = bytes-eq (overwrite b i xs) b (length-overwrite b i xs) (λ j m.
    elim (dec_le i j) [
      | no p ↦ overwrite-outside b i xs j (λ q. absurd (p q))
      | yes p ↦ elim (dec_lt j (i + length xs)) [
        | no q ↦ overwrite-outside b i xs j (λ r. omega arith)
        | yes q ↦
            let e : i + (j - i) ≡ j = omega arith in
            let inside = overwrite-inside b i xs (j - i) l (omega arith) in
            subst (λ (t : ℕ). get_or (overwrite b i xs) t 0 ≡ get_or b t 0) e
              (inside ∙ h (j - i) (omega arith))
      ]
    ])

digit :
    {x y z t : ℕ}
    → x < 256
    → y < 256
    → z < 256
    → t < 256
    → (k : ℕ) → k < 4
    → get_or (word_bytes (x + 256 * y + 65536 * z + 16777216 * t)) k 0
      ≡ get_or (x ∷ y ∷ z ∷ t ∷ []) k 0
digit p q r s zero m = omega arith
digit p q r s (suc zero) m = omega arith
digit p q r s (suc (suc zero)) m = omega arith
digit p q r s (suc (suc (suc zero))) m = omega arith
digit p q r s (suc (suc (suc (suc k)))) m = absurd (omega arith)

four_bytes :
    (b : Sector) (i k : ℕ)
    → k < 4
    → get_or (get_or b i 0 ∷ get_or b (i + 1) 0 ∷ get_or b (i + 2) 0 ∷ get_or b (i + 3) 0 ∷ []) k 0
      ≡ get_or b (i + k) 0
four_bytes b i zero m = let e : i ≡ i + 0 = omega arith in ap (λ (j : ℕ). get_or b j 0) e
four_bytes b i (suc zero) m = refl
four_bytes b i (suc (suc zero)) m = refl
four_bytes b i (suc (suc (suc zero))) m = refl
four_bytes b i (suc (suc (suc (suc k)))) m = absurd (omega arith)

word_bytes-word :
    (b : Sector) (i : ℕ)
    → AreBytes b
    → 4 * i + 4 ≤ length b
    → (k : ℕ) → k < 4
    → get_or (word_bytes (word b i)) k 0 ≡ get_or b (4 * i + k) 0
unfolding word
word_bytes-word b i h l k m =
    digit (h (4 * i) (omega arith)) (h (4 * i + 1) (omega arith)) (h (4 * i + 2) (omega arith))
      (h (4 * i + 3) (omega arith)) k m
    ∙ four_bytes b (4 * i) k m

-- A word written back leaves the bytes as they are.
pub set_word-word :
    (b : Sector) (i : ℕ) → AreBytes b → 4 * i + 4 ≤ length b → set_word b i (word b i) ≡ b
unfolding set_word
set_word-word b i h l = overwrite_same b (4 * i) (word_bytes (word b i)) l (word_bytes-word b i h l)
