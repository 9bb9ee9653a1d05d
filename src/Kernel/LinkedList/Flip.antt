-- ===== src/Kernel/LinkedList/Flip.antt =====
-- The loop of list_reverse, which swaps the links of each element.
use mathlib.Core.Path.{subst}
use cs162_group13_clone.Base.{
  ℕ, zero, suc, ◌<◌, ◌≡◌, refl, sym, ap, ◌∙◌, true, false, List, [], ◌∷◌, ◌++◌, length, mem,
  distinct, ok, ◌==◌, if◌then◌else◌, arith, Bool-cases, inl, inr,
}
use cs162_group13_clone.Kernel.LinkedList.{Links, LinkedList, flip, flip_elems}
use cs162_group13_clone.Kernel.LinkedList.Nodes.{Linked}
use cs162_group13_clone.Kernel.LinkedList.Update.{first}

-- The links of the nodes xs are swapped.
pub record Flipped (h h' : Links) (xs : List ℕ) : Type 0 where
  pub nexts : (p : ℕ) → h'.next p ≡ (if mem p xs then h.prev p else h.next p)
  pub prevs : (p : ℕ) → h'.prev p ≡ (if mem p xs then h.next p else h.prev p)

Flipped-none : (h : Links) → Flipped h h []
Flipped-none h = record { nexts = λ p. refl; prevs = λ p. refl }

flip_at :
    (h : Links) (x p : ℕ)
    → ((flip h x).next p ≡ (if p == x then h.prev p else h.next p))
      × ((flip h x).prev p ≡ (if p == x then h.next p else h.prev p))
flip_at h x p = elim (Bool-cases (p == x)) [
  | inl t ↦ let e : p ≡ x = ground arith in (rw t (ap h.prev (sym e)), rw t (ap h.next (sym e)))
  | inr t ↦ (rw t refl, rw t refl)
]

-- The nodes xs follow each other, and the last one is followed by t.
abbrev pub Follow : Links → List ℕ → ℕ → Type 0
Follow h [] t = Unit {0}
Follow h (x ∷ xs) t = (h.next x ≡ first xs t) × Follow h xs t

pub Linked-Follow :
    (h : Links) (a : ℕ) (xs : List ℕ) (t : ℕ)
    → Linked h (a ∷ (xs ++ t ∷ []))
    → (h.next a ≡ first xs t) × Follow h xs t
Linked-Follow h a [] t k = (k.0, tt)
Linked-Follow h a (x ∷ xs) t k = (k.0, Linked-Follow h x xs t k.2)

Follow-flip :
    (h : Links) (x : ℕ) (xs : List ℕ) (t : ℕ)
    → mem x xs ≡ false
    → Follow h xs t
    → Follow (flip h x) xs t
Follow-flip h x [] t m k = tt
Follow-flip h x (y ∷ ys) t m k =
    let n : (y == x) ≡ false = ground arith in (rw n k.0, Follow-flip h x ys t (ground arith) k.1)

Flipped-then :
    (h h' : Links) (x : ℕ) (xs : List ℕ)
    → mem x xs ≡ false
    → Flipped (flip h x) h' xs
    → Flipped h h' (x ∷ xs)
Flipped-then h h' x xs m f = record {
  nexts = λ p. f.nexts p ∙ (both p).0;
  prevs = λ p. f.prevs p ∙ (both p).1;
}
  where
    both :
        (p : ℕ)
        → ((if mem p xs then (flip h x).prev p else (flip h x).next p)
            ≡ (if mem p (x ∷ xs) then h.prev p else h.next p))
          × ((if mem p xs then (flip h x).next p else (flip h x).prev p)
              ≡ (if mem p (x ∷ xs) then h.next p else h.prev p))
    both p = elim (Bool-cases (p == x)) [
      | inl t ↦
          let e : p ≡ x = ground arith in
          let n : mem p xs ≡ false = subst (λ (q : ℕ). mem q xs ≡ false) (sym e) m in
          rw (n, t) (ap h.prev (sym e), ap h.next (sym e))
      | inr t ↦ rw t (refl, refl)
    ]

-- With more fuel than there are elements, the loop swaps the links of each of them, and no others.
pub flip_elems_lem :
    (fuel : ℕ) (h : Links) (l : LinkedList) (xs : List ℕ)
    → Follow h xs l.tail
    → distinct xs ≡ true
    → mem l.tail xs ≡ false
    → length xs < fuel
    → (h' : Links) × (flip_elems fuel h l (first xs l.tail) ≡ ok h') × Flipped h h' xs
unfolding flip_elems
flip_elems_lem zero h l xs k d m f = absurd (omega arith)
flip_elems_lem (suc fuel) h l [] k d m f =
    let t : (l.tail == l.tail) ≡ true = ground arith in (h, rw t refl, Flipped-none h)
flip_elems_lem (suc fuel) h l (x ∷ xs) k d m f =
    let t : (x == l.tail) ≡ false = ground arith in
    let s : (x == x) ≡ true = ground arith in
    let n : mem x xs ≡ false = ground arith in
    let (h', e, r) =
      flip_elems_lem fuel (flip h x) l xs (Follow-flip h x xs l.tail n k.1) (ground arith)
        (ground arith) (omega arith) in
    let step : (flip h x).prev x ≡ first xs l.tail = rw s k.0 in
    (h', rw t (ap (λ (q : ℕ). flip_elems fuel (flip h x) l q) step ∙ e), Flipped-then h h' x xs n r)
