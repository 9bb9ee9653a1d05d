-- ===== src/Strings/Tokens/First.antt =====
-- strtok_r cuts the first token off a string.
use mathlib.Core.Path.{subst}
use cs162_group13_clone.Base.{
  ℕ, zero, suc, ◌+◌, ◌<◌, ◌≡◌, ◌≢◌, refl, ap, ◌∙◌, Bool, true, false, not, List, [], ◌∷◌, ◌++◌,
  Outcome, ok, ◌>>=◌, length, length-append, ◌==◌, if◌then◌else◌, arith, Bool-cases, inl, inr,
}
use cs162_group13_clone.Devices.Block.{update}
use cs162_group13_clone.Strings.{Memory}
use cs162_group13_clone.Strings.Texts.{IsString, IsString-move, among, strchr-among}
use cs162_group13_clone.Strings.Tokens.{skip_delimiters, skip_token, cut_token, strtok_r}

abbrev pub AllAmong : Bool → List ℕ → List ℕ → Type 0
AllAmong b ds [] = Unit {0}
AllAmong b ds (x ∷ xs) = (among x ds ≡ b) × AllAmong b ds xs

among_null : (ds : List ℕ) → among 0 ds ≡ true
among_null [] = refl
among_null (d ∷ ds) = let e = among_null ds in ground arith

-- Where a loop stops that passes over the characters that are among others, or over those that are
-- not: at the string's end, or at the first other character.
data Run {ℓ} {A : Type ℓ} (m : Memory) (b : Bool) (ds : List ℕ) (at_end at_stop : ℕ → A) (p : ℕ)
    (xs : List ℕ) (r : A) : Type ℓ where
  all : AllAmong b ds xs → r ≡ at_end (p + length xs) → Run m b ds at_end at_stop p xs r
  stop :
      (before : List ℕ) (y : ℕ) (ys : List ℕ)
      → xs ≡ before ++ y ∷ ys
      → AllAmong b ds before
      → among y ds ≡ not b
      → IsString m (p + length before) (y ∷ ys)
      → r ≡ at_stop (p + length before)
      → Run m b ds at_end at_stop p xs r

module _ {ℓ} {A : Type ℓ} {m : Memory} {b : Bool} {ds : List ℕ} {at_end at_stop : ℕ → A} where
  Run-none :
      (p x : ℕ) (xs : List ℕ)
      → among x ds ≡ not b
      → IsString m p (x ∷ xs)
      → Run m b ds at_end at_stop p (x ∷ xs) (at_stop p)
  Run-none p x xs a s =
      let z : p ≡ p + 0 = omega arith in
      stop [] x xs refl tt a (subst (λ (j : ℕ). IsString m j (x ∷ xs)) z s) (ap at_stop z)

  Run-end : (p : ℕ) → Run m b ds at_end at_stop p [] (at_end p)
  Run-end p = all tt (ap at_end (omega arith))

  Run-on :
      (p x : ℕ) (xs : List ℕ) (r : A)
      → among x ds ≡ b
      → Run m b ds at_end at_stop (p + 1) xs r
      → Run m b ds at_end at_stop p (x ∷ xs) r
  Run-on p x xs r a (all h e) = all (a, h) (e ∙ ap at_end (omega arith))
  Run-on p x xs r a (stop before y ys e h c s e') =
      let z : p + 1 + length before ≡ p + length (x ∷ before) = omega arith in
      stop (x ∷ before) y ys (ap (λ (l : List ℕ). x ∷ l) e) (a, h) c
        (subst (λ (j : ℕ). IsString m j (y ∷ ys)) z s) (e' ∙ ap at_stop z)

module _ (m : Memory) (d : ℕ) (ds : List ℕ) (n : d ≢ 0) (t : IsString m d ds) where
  skip_delimiters_lem :
      (fuel p : ℕ) (xs : List ℕ)
      → IsString m p xs
      → length xs + length ds < fuel
      → Run m true ds (λ j. ok (true, j)) (λ j. ok (false, j)) p xs (skip_delimiters fuel m d p)
  unfolding skip_delimiters
  skip_delimiters_lem zero p xs s h = absurd (omega arith)
  skip_delimiters_lem (suc fuel) p [] s h =
      let (q, e, f) = strchr-among (suc fuel) m d 0 ds n t (omega arith) (omega arith) in
      let u : (q == 0) ≡ false = rw (f, among_null ds) refl in rw (s, e, u) (Run-end p)
  skip_delimiters_lem (suc fuel) p (x ∷ xs) s h =
      let (q, e, f) = strchr-among (suc fuel) m d x ds n t (omega arith) s.2 in
      elim (Bool-cases (among x ds)) [
        | inr a ↦ let u : (q == 0) ≡ true = rw (f, a) refl in rw (s.0, e, u) (Run-none p x xs a s)
        | inl a ↦
            let u : (q == 0) ≡ false = rw (f, a) refl in
            let v : (x == 0) ≡ false = let l = s.1 in ground arith in
            rw (s.0, e, u, v)
              (Run-on p x xs (skip_delimiters fuel m d (p + 1)) a
                (skip_delimiters_lem fuel (p + 1) xs s.3 (omega arith)))
      ]

  skip_token_lem :
      (fuel p : ℕ) (xs : List ℕ)
      → IsString m p xs
      → length xs + length ds < fuel
      → Run m false ds ok ok p xs (skip_token fuel m d p)
  unfolding skip_token
  skip_token_lem zero p xs s h = absurd (omega arith)
  skip_token_lem (suc fuel) p [] s h =
      let (q, e, f) = strchr-among (suc fuel) m d 0 ds n t (omega arith) (omega arith) in
      let u : (q == 0) ≡ false = rw (f, among_null ds) refl in rw (s, e, u) (Run-end p)
  skip_token_lem (suc fuel) p (x ∷ xs) s h =
      let (q, e, f) = strchr-among (suc fuel) m d x ds n t (omega arith) s.2 in
      elim (Bool-cases (among x ds)) [
        | inl a ↦ let u : (q == 0) ≡ false = rw (f, a) refl in rw (s.0, e, u) (Run-none p x xs a s)
        | inr a ↦
            let u : (q == 0) ≡ true = rw (f, a) refl in
            rw (s.0, e, u)
              (Run-on p x xs (skip_token fuel m d (p + 1)) a
                (skip_token_lem fuel (p + 1) xs s.3 (omega arith)))
      ]

-- What `strtok_r` gives: nothing, if the string holds delimiters only; else the longest run of other
-- characters behind the leading delimiters, which is not empty, as a string of its own, and the
-- place of what follows the delimiter that ends it, or of the string's end.
pub data Tokenised (m : Memory) (p : ℕ) (ds xs : List ℕ) (r : Outcome (ℕ × ℕ × Memory))
    : Type 0 where
  nothing : AllAmong true ds xs → r ≡ ok (0, p + length xs, m) → Tokenised m p ds xs r
  last_token :
      (before token : List ℕ)
      → xs ≡ before ++ token
      → AllAmong true ds before
      → token ≢ []
      → AllAmong false ds token
      → IsString m (p + length before) token
      → r ≡ ok (p + length before, p + length xs, m)
      → Tokenised m p ds xs r
  token_before :
      (before token : List ℕ) (y : ℕ) (ys : List ℕ) (m' : Memory)
      → xs ≡ before ++ (token ++ y ∷ ys)
      → AllAmong true ds before
      → token ≢ []
      → AllAmong false ds token
      → among y ds ≡ true
      → IsString m' (p + length before) token
      → IsString m' (p + length before + length token + 1) ys
      → r ≡ ok (p + length before, p + length before + length token + 1, m')
      → Tokenised m p ds xs r

behind_token :
    (m : Memory) (p : ℕ) (token : List ℕ) (y : ℕ) (ys : List ℕ)
    → IsString m p (token ++ y ∷ ys)
    → IsString m (p + length token) (y ∷ ys)
behind_token m p [] y ys s =
    let z : p ≡ p + 0 = omega arith in subst (λ (j : ℕ). IsString m j (y ∷ ys)) z s
behind_token m p (x ∷ xs) y ys s =
    let z : p + 1 + length xs ≡ p + length (x ∷ xs) = omega arith in
    subst (λ (j : ℕ). IsString m j (y ∷ ys)) z (behind_token m (p + 1) xs y ys s.3)

cut_before :
    (m : Memory) (e p : ℕ) (token : List ℕ) (y : ℕ) (ys : List ℕ)
    → e ≡ p + length token
    → IsString m p (token ++ y ∷ ys)
    → IsString (update m e 0) p token
cut_before m e p [] y ys h s = let t : (p == e) ≡ true = ground arith in rw t refl
cut_before m e p (x ∷ xs) y ys h s =
    let t : (p == e) ≡ false = ground arith in
    (rw t s.0, s.1, s.2, cut_before m e (p + 1) xs y ys (omega arith) s.3)

cut_after :
    (m : Memory) (e : ℕ) (ys : List ℕ) → IsString m (e + 1) ys → IsString (update m e 0) (e + 1) ys
cut_after m e ys s =
    IsString-move m (update m e 0) (e + 1) (e + 1) ys
      (λ i l. let t : (e + 1 + i == e) ≡ false = ground arith in rw t refl) s

string_end : (m : Memory) (p : ℕ) (xs : List ℕ) → IsString m p xs → m (p + length xs) ≡ 0
string_end m p [] s = ap m (omega arith) ∙ s
string_end m p (x ∷ xs) s =
    let z : p + length (x ∷ xs) ≡ p + 1 + length xs = omega arith in
    ap m z ∙ string_end m (p + 1) xs s.3

tokenised :
    {m : Memory} {p : ℕ} {ds xs : List ℕ} (before : List ℕ) {y : ℕ} {ys : List ℕ} {r : Outcome ℕ}
    → xs ≡ before ++ y ∷ ys
    → AllAmong true ds before
    → among y ds ≡ false
    → IsString m (p + length before) (y ∷ ys)
    → Run m false ds ok ok (p + length before) (y ∷ ys) r
    → Tokenised m p ds xs (r >>= λ e. ok (cut_token m (p + length before) e))
tokenised {m} {p} {ds} {xs} before {y} {ys} e a c s (all h r) =
    let end = string_end m (p + length before) (y ∷ ys) s in
    let z : p + length before + length (y ∷ ys) ≡ p + length xs =
      omega (arith, ap length e, length-append before (y ∷ ys)) in
    last_token before (y ∷ ys) e a (λ q. cc) h s
      (rw (r, end) (ap (λ (j : ℕ). ok (p + length before, j, m)) z))
tokenised {m} {p} {ds} {xs} before {y} {ys} e a c s (stop [] z zs e' h c' s' r) =
    let same : y ≡ z = cc in absurd (let u = subst (λ (j : ℕ). among j ds ≡ false) same c in cc)
tokenised {m} {p} {ds} {xs} before {y} {ys} e a c s (stop (k ∷ ks) z zs e' h c' s' r) =
    let token : List ℕ = k ∷ ks in
    let cut = p + length before + length token in
    let nonzero : (m cut == 0) ≡ false = let l = s'.1 in let b = s'.0 in ground arith in
    let there : IsString m (p + length before) (token ++ z ∷ zs) =
      subst (λ (l : List ℕ). IsString m (p + length before) l) e' s in
    token_before before token z zs (update m cut 0) (e ∙ ap (λ (l : List ℕ). before ++ l) e') a
      (λ q. cc) h c' (cut_before m cut (p + length before) token z zs refl there)
      (cut_after m cut zs s'.3) (rw (r, nonzero) refl)

-- `strtok_r`, called with a string to start from or with the place that the last call saved, gives
-- the first token of the string there as `Tokenised` says. The string and that of the delimiters are
-- not null, and the fuel is more than both lengths together.
pub strtok_r_lem :
    (fuel : ℕ) (m : Memory) (s delimiters save_ptr p : ℕ) (ds xs : List ℕ)
    → (if s == 0 then save_ptr else s) ≡ p
    → p ≢ 0
    → delimiters ≢ 0
    → IsString m p xs
    → IsString m delimiters ds
    → length xs + length ds < fuel
    → Tokenised m p ds xs (strtok_r fuel m s delimiters save_ptr)
unfolding strtok_r
strtok_r_lem fuel m s d save p ds xs start n n' x t h =
    let u : (d == 0) ≡ false = ground arith in
    let v : (p == 0) ≡ false = ground arith in
    rw (u, start, v) (after (skip_delimiters_lem m d ds n' t fuel p xs x h))
  where
    after :
        {r : Outcome (Bool × ℕ)}
        → Run m true ds (λ j. ok (true, j)) (λ j. ok (false, j)) p xs r
        → Tokenised m p ds xs (do
          (ended, token) ← r
          if ended
              then ok (0, token, m)
              else (do s' ← skip_token fuel m d token; ok (cut_token m token s')))
    after (all a e) = nothing a (rw e refl)
    after (stop before y ys e a c s e') =
        let few : length (y ∷ ys) + length ds < fuel =
          omega (arith, ap length e, length-append before (y ∷ ys)) in
        rw e' (
          tokenised before e a c s
            (skip_token_lem m d ds n' t fuel (p + length before) (y ∷ ys) s few))
