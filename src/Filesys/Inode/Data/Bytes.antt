-- ===== src/Filesys/Inode/Data/Bytes.antt =====
-- What `slice` and `overwrite`, the copies of the data routines, do to each byte.
use cs162_group13_clone.Base.{
  ℕ, zero, suc, ◌+◌, ◌≤◌, ◌<◌, ◌≡◌, refl, ap, ◌∙◌, List, [], ◌∷◌, ◌++◌, arith, get_or, set, length,
  length-set, get_or-set_self, get_or-set_ne,
}
use cs162_group13_clone.Filesys.Inode.Data.{slice, overwrite}

pub length-slice : (b : List ℕ) (i n : ℕ) → length (slice b i n) ≡ n
length-slice b i zero = refl
length-slice b i (suc n) = ap suc (length-slice b (i + 1) n)

pub get_or-slice : (b : List ℕ) (i n j : ℕ) → j < n → get_or (slice b i n) j 0 ≡ get_or b (i + j) 0
get_or-slice b i zero j h = absurd (omega arith)
get_or-slice b i (suc n) zero h = ap (λ (k : ℕ). get_or b k 0) (omega arith)
get_or-slice b i (suc n) (suc j) h =
    get_or-slice b (i + 1) n j (omega arith) ∙ ap (λ (k : ℕ). get_or b k 0) (omega arith)

pub length-overwrite : (b : List ℕ) (i : ℕ) (xs : List ℕ) → length (overwrite b i xs) ≡ length b
length-overwrite b i [] = refl
length-overwrite b i (x ∷ xs) = length-overwrite (set b i x) (i + 1) xs ∙ length-set b i x

pub overwrite-outside :
    (b : List ℕ) (i : ℕ) (xs : List ℕ) (j : ℕ)
    → (i ≤ j → i + length xs ≤ j)
    → get_or (overwrite b i xs) j 0 ≡ get_or b j 0
overwrite-outside b i [] j h = refl
overwrite-outside b i (x ∷ xs) j h =
    overwrite-outside (set b i x) (i + 1) xs j (λ p. let q = h (omega arith) in omega arith)
    ∙ get_or-set_ne b x 0 (λ e. let q = h (omega arith) in absurd (omega arith))

pub overwrite-inside :
    (b : List ℕ) (i : ℕ) (xs : List ℕ) (j : ℕ)
    → i + length xs ≤ length b
    → j < length xs
    → get_or (overwrite b i xs) (i + j) 0 ≡ get_or xs j 0
overwrite-inside b i [] j h l = absurd (omega arith)
overwrite-inside b i (x ∷ xs) zero h l =
    ap (λ (k : ℕ). get_or (overwrite (set b i x) (i + 1) xs) k 0) (omega arith)
    ∙ overwrite-outside (set b i x) (i + 1) xs i (λ p. absurd (omega arith))
    ∙ get_or-set_self b i x 0 (omega arith)
overwrite-inside b i (x ∷ xs) (suc j) h l =
    ap (λ (k : ℕ). get_or (overwrite (set b i x) (i + 1) xs) k 0) (omega arith)
    ∙ overwrite-inside (set b i x) (i + 1) xs j (omega (arith, length-set b i x)) (omega arith)

-- Lists of one length with the same bytes are the same.
pub bytes-eq :
    (xs ys : List ℕ)
    → length xs ≡ length ys
    → ((j : ℕ) → j < length xs → get_or xs j 0 ≡ get_or ys j 0)
    → xs ≡ ys
bytes-eq [] [] e h = refl
bytes-eq [] (y ∷ ys) e h = absurd (omega arith)
bytes-eq (x ∷ xs) [] e h = absurd (omega arith)
bytes-eq (x ∷ xs) (y ∷ ys) e h =
    let tail = bytes-eq xs ys (omega arith) (λ j l. h (suc j) (omega arith)) in
    let head : x ≡ y = h 0 (omega arith) in cc

pub get_or-append_left :
    (xs ys : List ℕ) (j : ℕ) → j < length xs → get_or (xs ++ ys) j 0 ≡ get_or xs j 0
get_or-append_left [] ys j h = absurd (omega arith)
get_or-append_left (x ∷ xs) ys zero h = refl
get_or-append_left (x ∷ xs) ys (suc j) h = get_or-append_left xs ys j (omega arith)

pub get_or-append_right :
    (xs ys : List ℕ) (j : ℕ) → get_or (xs ++ ys) (length xs + j) 0 ≡ get_or ys j 0
get_or-append_right [] ys j = ap (λ (k : ℕ). get_or ys k 0) (omega arith)
get_or-append_right (x ∷ xs) ys j =
    ap (λ (k : ℕ). get_or (x ∷ (xs ++ ys)) k 0) (add_suc (length xs) j)
    ∙ get_or-append_right xs ys j
  where
    add_suc : (m n : ℕ) → suc m + n ≡ suc (m + n)
    add_suc m n = omega arith
