-- ===== src/Kernel/LinkedList/Extremes.antt =====
-- pintos/src/lib/kernel/list.c, list_max and list_min on lists.
use cs162_group13_clone.Base.{
  ℕ, zero, suc, ◌<◌, ◌≡◌, refl, Bool, true, false, ◌||◌, List, [], ◌∷◌, length, mem, ok, ◌==◌,
  if◌then◌else◌, arith, Bool-cases, inl, inr,
}
use cs162_group13_clone.Kernel.LinkedList.{Links, LinkedList, list_begin}
use cs162_group13_clone.Kernel.LinkedList.Nodes.{IsList, mem_head}
use cs162_group13_clone.Kernel.LinkedList.Update.{first}
use cs162_group13_clone.Kernel.LinkedList.Walk.{Walks, Walks-all, walk_next}
use cs162_group13_clone.Kernel.LinkedList.Order.{best_from, list_max, list_min}

-- A comparison that never holds both ways, and of which not holding is transitive.
pub record IsOrder (less : ℕ → ℕ → Bool) : Type 0 where
  pub one_way : (a b : ℕ) → less a b ≡ true → less b a ≡ false
  pub not_less : (a b c : ℕ) → less a b ≡ false → less b c ≡ false → less a c ≡ false

-- An element of xs that is less than none of them.
pub record IsGreatest (less : ℕ → ℕ → Bool) (m : ℕ) (xs : List ℕ) : Type 0 where
  pub member : mem m xs ≡ true
  pub above : (y : ℕ) → mem y xs ≡ true → less m y ≡ false

module _ (less : ℕ → ℕ → Bool) (o : IsOrder less) where
  irreflexive : (a : ℕ) → less a a ≡ false
  irreflexive a = elim (Bool-cases (less a a)) [ inl t ↦ o.one_way a a t | inr t ↦ t ]

  -- The better of two is one of them, and not less than them, nor than what the first is not less
  -- than.
  record Better (b x m : ℕ) : Type 0 where
    choice : (if less b x then x else b) ≡ m
    either : (m == b || m == x) ≡ true
    old : (y : ℕ) → less b y ≡ false → less m y ≡ false
    new : less m x ≡ false

  better : (b x : ℕ) → (m : ℕ) × Better b x m
  better b x = elim (Bool-cases (less b x)) [
    | inl t ↦ (
      x,
      record {
        choice = rw t refl;
        either = ground arith;
        old = λ y n. o.not_less x b y (o.one_way b x t) n;
        new = irreflexive x;
      },
    )
    | inr t ↦ (b, record { choice = rw t refl; either = ground arith; old = λ y n. n; new = t })
  ]

  -- What the loop finds from the best so far and the elements xs.
  record Best (fuel : ℕ) (h : Links) (l : LinkedList) (b : ℕ) (xs : List ℕ) (m : ℕ) : Type 0 where
    found : best_from less fuel h l b (first xs l.tail) ≡ ok m
    member : mem m (b ∷ xs) ≡ true
    old : (y : ℕ) → less b y ≡ false → less m y ≡ false
    above : (y : ℕ) → mem y xs ≡ true → less m y ≡ false

  best_from_lem :
      (fuel : ℕ) (h : Links) (l : LinkedList) (a b : ℕ) (xs : List ℕ)
      → Walks h l a xs
      → length xs < fuel
      → (m : ℕ) × Best fuel h l b xs m
  unfolding best_from
  best_from_lem zero h l a b xs w f = absurd (omega arith)
  best_from_lem (suc fuel) h l a b [] w f =
      let t : (l.tail == l.tail) ≡ true = ground arith in
      (
        b,
        record {
          found = rw t refl;
          member = mem_head b [];
          old = λ y n. n;
          above = λ y i. absurd cc;
        },
      )
  best_from_lem (suc fuel) h l a b (x ∷ xs) w f =
      let (n, step, w') = walk_next h l a x xs w in
      let (c, r) = better b x in
      let (m, s) = best_from_lem fuel h l x c xs w' (omega arith) in
      let among = s.member in
      let which = r.either in
      (
        m,
        record {
          found = rw (n, step, r.choice) s.found;
          member = ground arith;
          old = λ y k. s.old y (r.old y k);
          above = λ y i. elim (Bool-cases (y == x)) [
            | inl t ↦ let y_x : y ≡ x = ground arith in rw y_x (s.old x r.new)
            | inr t ↦ s.above y (ground arith)
          ];
        },
      )

  -- The loop from the second element on.
  pub greatest :
      (fuel : ℕ) (h : Links) (l : LinkedList) (x : ℕ) (xs : List ℕ)
      → IsList h l (x ∷ xs)
      → length xs < fuel
      → (m : ℕ) × (best_from less fuel h l x (first xs l.tail) ≡ ok m) × IsGreatest less m (x ∷ xs)
  greatest fuel h l x xs k f =
      let (n, step, w) = walk_next h l l.head x xs (Walks-all h l (x ∷ xs) k) in
      let (m, s) = best_from_lem fuel h l x x xs w f in
      (
        m,
        s.found,
        record {
          member = s.member;
          above = λ y i. elim (Bool-cases (y == x)) [
            | inl t ↦ let y_x : y ≡ x = ground arith in rw y_x (s.old x (irreflexive x))
            | inr t ↦ s.above y (ground arith)
          ];
        },
      )

opposite : (less : ℕ → ℕ → Bool) → IsOrder less → IsOrder (λ a b. less b a)
opposite less o = record {
  one_way = λ a b t. o.one_way b a t;
  not_less = λ a b c p q. o.not_less c b a q p;
}

-- `list_max` and `list_min` of a list that is not empty come to an end, within as many rounds as the
-- list has elements, where the comparison never holds both ways and its not holding is
-- transitive. `list_max` returns an element that is less than no other, `list_min` one that no
-- other is less than.
pub list_max_lem :
    (less : ℕ → ℕ → Bool) (fuel : ℕ) (h : Links) (l : LinkedList) (x : ℕ) (xs : List ℕ)
    → IsOrder less
    → IsList h l (x ∷ xs)
    → length xs < fuel
    → ((m : ℕ) × (list_max less fuel h l ≡ ok m) × IsGreatest less m (x ∷ xs))
      × ((m : ℕ) × (list_min less fuel h l ≡ ok m) × IsGreatest (λ a b. less b a) m (x ∷ xs))
unfolding list_max list_min list_begin
list_max_lem less fuel h l x xs o k f =
    let z : (l.head == 0) ≡ false = let m = k.not_null in ground arith in
    let (n, step, w) = walk_next h l l.head x xs (Walks-all h l (x ∷ xs) k) in
    let (m, e, g) = greatest less o fuel h l x xs k f in
    let (m', e', g') = greatest (λ a b. less b a) (opposite less o) fuel h l x xs k f in
    ((m, rw (z, k.linked.0, n, step) e, g), (m', rw (z, k.linked.0, n, step) e', g'))
