-- ===== src/Base/Members.antt =====
-- Membership and absence of duplicates, of lists of numbers.
use Prim.Native.Nat.{ℕ}
use mathlib.Core.Path.{◌≡◌, refl}
use mathlib.Core.Bool.{Bool, true, false, not, ◌&&◌, ◌||◌}
use mathlib.Core.List.{List, [], ◌∷◌, ◌++◌}
use native.Mathlib.Omega.{arith}
use cs162_group13_clone.Base.Tests.{◌==◌}

abbrev pub mem : ℕ → List ℕ → Bool
mem t [] = false
mem t (x ∷ xs) = (t == x) || mem t xs

abbrev pub distinct : List ℕ → Bool
distinct [] = true
distinct (x ∷ xs) = not (mem x xs) && distinct xs

pub mem-snoc : (t : ℕ) (xs : List ℕ) (x : ℕ) → mem t (xs ++ x ∷ []) ≡ (mem t xs || (t == x))
mem-snoc t [] x = ground arith
mem-snoc t (y ∷ xs) x = ground (arith, mem-snoc t xs x)

pub distinct-snoc :
    (xs : List ℕ) (x : ℕ) → mem x xs ≡ false → distinct xs ≡ true → distinct (xs ++ x ∷ []) ≡ true
distinct-snoc [] x h d = refl
distinct-snoc (y ∷ xs) x h d =
    ground (arith, mem-snoc y xs x, distinct-snoc xs x (ground arith) (ground arith))
