-- ===== src/Kernel/LinkedList/Update.antt =====
-- Two nodes that follow each other, before and after a third one is put between them.
use mathlib.Core.List.{append_assoc}
use cs162_group13_clone.Base.{
  ℕ, ◌≡◌, refl, ap, ◌∙◌, true, false, List, [], ◌∷◌, ◌++◌, mem, distinct, ◌==◌, arith, Bool-cases,
  inl, inr,
}
use cs162_group13_clone.Kernel.LinkedList.{Links, LinkedList, insert_links}
use cs162_group13_clone.Kernel.LinkedList.Nodes.{
  Linked, nodes, mem-append, Linked-split, Linked-join, Linked-same, Linked-same_before, apart_ne,
  distinct-append, distinct_right, last_of,
}

-- The nodes of a run without repetition, apart from two of them.
module _ (us : List ℕ) (a b : ℕ) (vs : List ℕ) (d : distinct (us ++ a ∷ b ∷ vs) ≡ true) where
  pub apart_ab : (a == b) ≡ false
  apart_ab = let p = distinct_right us (a ∷ b ∷ vs) d in ground arith

  pub before_a : (p : ℕ) → mem p us ≡ true → (p == a) ≡ false × ((p == b) ≡ false)
  before_a p m = let n = distinct-append us (a ∷ b ∷ vs) p d m in (ground arith, ground arith)

  pub behind_b : (p : ℕ) → mem p vs ≡ true → (p == a) ≡ false × ((p == b) ≡ false)
  behind_b p m =
      let n = distinct_right us (a ∷ b ∷ vs) d in
      (apart_ne p a vs m (ground arith), apart_ne p b vs m (ground arith))

-- Two nodes that follow each other, in a heap, with a third one that is not in the run.
module _ (h : Links) (us : List ℕ) (a b : ℕ) (vs : List ℕ) (l : Linked h (us ++ a ∷ b ∷ vs))
    (d : distinct (us ++ a ∷ b ∷ vs) ≡ true) where
  module _ (e : ℕ) (fresh : mem e (us ++ a ∷ b ∷ vs) ≡ false) where
    not_in : (p : ℕ) → mem p (us ++ a ∷ b ∷ vs) ≡ true → (p == e) ≡ false
    not_in p m = apart_ne p e (us ++ a ∷ b ∷ vs) m fresh

    pub other_a : (a == e) ≡ false
    other_a = not_in a (ground (arith, mem-append a us (a ∷ b ∷ vs)))

    pub other_b : (b == e) ≡ false
    other_b = not_in b (ground (arith, mem-append b us (a ∷ b ∷ vs)))

    back : h.prev b ≡ a
    back = (Linked-split h us a b vs l).2

    pub insert_next :
        (p : ℕ) → (p == a) ≡ false → (p == e) ≡ false → (insert_links h b e).next p ≡ h.next p
    insert_next p n n' = rw (other_b, back, n, n') refl

    pub insert_prev :
        (p : ℕ) → (p == b) ≡ false → (p == e) ≡ false → (insert_links h b e).prev p ≡ h.prev p
    insert_prev p n n' = rw (n, n') refl

    -- The new node stands between the two.
    pub inserted : Linked (insert_links h b e) (us ++ a ∷ e ∷ b ∷ vs)
    inserted =
        let (left, to_b, to_a, right) = Linked-split h us a b vs l in
        let self_a : (a == a) ≡ true = ground arith in
        let self_b : (b == b) ≡ true = ground arith in
        let self_e : (e == e) ≡ true = ground arith in
        let ea : (e == a) ≡ false = let n = other_a in ground arith in
        let eb : (e == b) ≡ false = let n = other_b in ground arith in
        Linked-join (insert_links h b e) us a e (b ∷ vs)
          (Linked-same_before h (insert_links h b e) us a
            (λ p m.
              insert_next p (before_a us a b vs d p m).0
                (not_in p (ground (arith, mem-append p us (a ∷ b ∷ vs)))))
            (λ p m.
              insert_prev p
                (elim (Bool-cases (mem p us)) [
                  | inl t ↦ (before_a us a b vs d p t).1
                  | inr t ↦
                      let n = apart_ab us a b vs d in
                      let k = mem-append p us (a ∷ []) in ground arith
                ])
                (not_in p (ground (arith, mem-append p us (a ∷ []), mem-append p us (a ∷ b ∷ vs)))))
            left)
          (rw (other_b, back, self_a) refl) (rw (eb, self_e, back) refl)
          (
            rw (other_b, back, ea, self_e) refl,
            rw self_b refl,
            Linked-same h (insert_links h b e) b vs
                (λ p m.
                  insert_next p
                    (elim (Bool-cases (p == b)) [
                      | inl t ↦ let n = apart_ab us a b vs d in ground arith
                      | inr t ↦ (behind_b us a b vs d p (ground arith)).0
                    ])
                    (not_in p (ground (arith, mem-append p us (a ∷ b ∷ vs)))))
                (λ p m.
                  insert_prev p (behind_b us a b vs d p m).1
                    (not_in p (ground (arith, mem-append p us (a ∷ b ∷ vs)))))
                right,
          )

-- The element at a position, the tail counting as the last.
abbrev pub first : List ℕ → ℕ → ℕ
first [] t = t
first (x ∷ xs) t = x

first_view : (xs : List ℕ) (t : ℕ) → (vs : List ℕ) × (xs ++ t ∷ [] ≡ first xs t ∷ vs)
first_view [] t = ([], refl)
first_view (x ∷ xs) t = (xs ++ t ∷ [], refl)

pub regroup :
    (x : ℕ) (pre us : List ℕ) (a : ℕ) (ws : List ℕ)
    → x ∷ pre ≡ us ++ a ∷ []
    → x ∷ (pre ++ ws) ≡ us ++ a ∷ ws
regroup x pre us a ws e = ap (λ (l : List ℕ). l ++ ws) e ∙ append_assoc us (a ∷ []) ws

-- The nodes of a list around a position.
pub record Around (l : LinkedList) (pre post : List ℕ) : Type 0 where
  pub us : List ℕ
  pub a : ℕ
  pub vs : List ℕ
  pub left : l.head ∷ pre ≡ us ++ a ∷ []
  pub right : post ++ l.tail ∷ [] ≡ first post l.tail ∷ vs

pub around : (l : LinkedList) (pre post : List ℕ) → Around l pre post
around l pre post =
    let (us, a, e) = last_of l.head pre in
    let (vs, e') = first_view post l.tail in
    record { us = us; a = a; vs = vs; left = e; right = e' }

pub nodes-Around :
    (l : LinkedList) (pre post : List ℕ) (r : Around l pre post)
    → nodes l (pre ++ post) ≡ r.us ++ r.a ∷ first post l.tail ∷ r.vs
nodes-Around l pre post r =
    ap (λ (ws : List ℕ). l.head ∷ ws) (append_assoc pre post (l.tail ∷ []))
    ∙ regroup l.head pre r.us r.a (post ++ l.tail ∷ []) r.left
    ∙ ap (λ (ws : List ℕ). r.us ++ r.a ∷ ws) r.right
