-- ===== src/Kernel/LinkedList/Remove.antt =====
-- pintos/src/lib/kernel/list.c, list_remove, list_pop_front and list_pop_back on lists.
use mathlib.Core.Path.{subst}
use mathlib.Core.List.{append_assoc, append-nil}
use cs162_group13_clone.Base.{
  ℕ, ◌≡◌, refl, sym, ◌∙◌, true, false, List, [], ◌∷◌, ◌++◌, mem, distinct, ok, ◌==◌, arith,
  Bool-cases, inl, inr,
}
use cs162_group13_clone.Kernel.LinkedList.{
  Links, LinkedList, is_interior, remove_links, list_remove, list_pop_front, list_pop_back,
  list_front, list_back, list_empty, list_begin, list_end,
}
use cs162_group13_clone.Kernel.LinkedList.Nodes.{
  Linked, nodes, IsList, mem-append, Linked-split, Linked-join, Linked-same, Linked-same_before,
  distinct_right, distinct-delete,
}
use cs162_group13_clone.Kernel.LinkedList.Update.{
  first, around, nodes-Around, before_a, behind_b, apart_ab,
}
use cs162_group13_clone.Kernel.LinkedList.Insert.{Untouched, nodes-insert, head_ne, tail_ne}

-- Three nodes in a row; the one in the middle is taken out.
module _ (h : Links) (us : List ℕ) (a x b : ℕ) (vs : List ℕ) (l : Linked h (us ++ a ∷ x ∷ b ∷ vs))
    (d : distinct (us ++ a ∷ b ∷ vs) ≡ true) (xa : (x == a) ≡ false) where
  around_x : (h.next a ≡ x) × (h.prev x ≡ a) × (h.next x ≡ b) × (h.prev b ≡ x)
  around_x = let (p, q, r, s) = Linked-split h us a x (b ∷ vs) l in (q, r, s.0, s.1)

  remove_next : (p : ℕ) → (p == a) ≡ false → (remove_links h x).next p ≡ h.next p
  remove_next p n = rw (around_x.1, n) refl

  remove_prev : (p : ℕ) → (p == b) ≡ false → (remove_links h x).prev p ≡ h.prev p
  remove_prev p n = rw (around_x.1, xa, around_x.2, n) refl

  removed : Linked (remove_links h x) (us ++ a ∷ b ∷ vs)
  removed =
      let (left, to_x, from_x, mid) = Linked-split h us a x (b ∷ vs) l in
      let self_a : (a == a) ≡ true = ground arith in
      let self_b : (b == b) ≡ true = ground arith in
      Linked-join (remove_links h x) us a b vs
        (Linked-same_before h (remove_links h x) us a
          (λ p m. remove_next p (before_a us a b vs d p m).0)
          (λ p m. remove_prev p (elim (Bool-cases (mem p us)) [
            | inl t ↦ (before_a us a b vs d p t).1
            | inr t ↦
                let n = apart_ab us a b vs d in let k = mem-append p us (a ∷ []) in ground arith
          ]))
          left)
        (rw (around_x.1, self_a) around_x.2) (rw (around_x.1, xa, around_x.2, self_b) refl)
        (Linked-same h (remove_links h x) b vs
          (λ p m. remove_next p (elim (Bool-cases (p == b)) [
            | inl t ↦ let n = apart_ab us a b vs d in ground arith
            | inr t ↦ (behind_b us a b vs d p (ground arith)).0
          ]))
          (λ p m. remove_prev p (behind_b us a b vs d p m).1) mid.2)

-- `list_remove` of an element of a list takes it out, returns what followed it, and changes no
-- links of other nodes, nor those of the element.
pub list_remove_lem :
    (h : Links) (l : LinkedList) (pre : List ℕ) (x : ℕ) (post : List ℕ)
    → IsList h l (pre ++ x ∷ post)
    → (h' : Links) × (list_remove h x ≡ ok (first post l.tail, h'))
      × IsList h' l (pre ++ post)
      × Untouched h h' (nodes l (pre ++ post))
unfolding list_remove
list_remove_lem h l pre x post k =
    let r = around l pre post in
    let b = first post l.tail in
    let old = nodes-insert l pre post x r in
    let new = nodes-Around l pre post r in
    let linked : Linked h (r.us ++ r.a ∷ x ∷ b ∷ r.vs) =
      subst (λ (ns : List ℕ). Linked h ns) old k.linked in
    let d3 : distinct (r.us ++ r.a ∷ x ∷ b ∷ r.vs) ≡ true =
      subst (λ (ns : List ℕ). distinct ns ≡ true) old k.apart in
    let z : mem 0 (r.us ++ r.a ∷ x ∷ b ∷ r.vs) ≡ false =
      subst (λ (ns : List ℕ). mem 0 ns ≡ false) old k.not_null in
    let d : distinct (r.us ++ r.a ∷ b ∷ r.vs) ≡ true =
      subst (λ (ns : List ℕ). distinct ns ≡ true) (append_assoc r.us (r.a ∷ []) (b ∷ r.vs))
        (distinct-delete (r.us ++ r.a ∷ []) (b ∷ r.vs) x (
          subst (λ (ns : List ℕ). distinct ns ≡ true)
            (sym (append_assoc r.us (r.a ∷ []) (x ∷ b ∷ r.vs))) d3)) in
    let xa : (x == r.a) ≡ false =
      let n = distinct_right r.us (r.a ∷ x ∷ b ∷ r.vs) d3 in ground arith in
    let zs = mem-append 0 r.us (r.a ∷ x ∷ b ∷ r.vs) in
    let az : (r.a == 0) ≡ false = ground arith in
    let bz : (b == 0) ≡ false = ground arith in
    let xz : (x == 0) ≡ false = ground arith in
    let (to_x, from_x, to_b, from_b) = around_x h r.us r.a x b r.vs linked d xa in
    let t : is_interior h x ≡ true = rw (from_x, to_b, xz, az, bz) refl in
    let after : (remove_links h x).next x ≡ b =
      remove_next h r.us r.a x b r.vs linked d xa x xa ∙ to_b in
    (
      remove_links h x,
      rw (t, after) refl,
      record {
        linked =
            subst (λ (ns : List ℕ). Linked (remove_links h x) ns) (sym new)
              (removed h r.us r.a x b r.vs linked d xa);
        no_prev =
            remove_prev h r.us r.a x b r.vs linked d xa l.head (head_ne l pre post r d) ∙ k.no_prev;
        no_next =
            remove_next h r.us r.a x b r.vs linked d xa l.tail (tail_ne l pre post r d) ∙ k.no_next;
        apart = subst (λ (ns : List ℕ). distinct ns ≡ true) (sym new) d;
        not_null =
            subst (λ (ns : List ℕ). mem 0 ns ≡ false) (sym new)
              (ground (arith, mem-append 0 r.us (r.a ∷ b ∷ r.vs)));
      },
      record {
        nexts = λ p m.
            let n = subst (λ (ns : List ℕ). mem p ns ≡ false) new m in
            let q = mem-append p r.us (r.a ∷ b ∷ r.vs) in
            remove_next h r.us r.a x b r.vs linked d xa p (ground arith);
        prevs = λ p m.
            let n = subst (λ (ns : List ℕ). mem p ns ≡ false) new m in
            let q = mem-append p r.us (r.a ∷ b ∷ r.vs) in
            remove_prev h r.us r.a x b r.vs linked d xa p (ground arith);
      },
    )

last_link :
    (h : Links) (a : ℕ) (us : List ℕ) (x t : ℕ)
    → Linked h (a ∷ (us ++ x ∷ []) ++ t ∷ [])
    → h.prev t ≡ x
last_link h a [] x t k = k.2.1
last_link h a (u ∷ us) x t k = last_link h u us x t k.2

pub not_empty :
    (h : Links) (l : LinkedList) (x : ℕ) (xs : List ℕ)
    → IsList h l (x ∷ xs)
    → (h.next l.head == l.tail) ≡ false
not_empty h l x xs k =
    let a = k.apart in
    let n : (x == l.tail) ≡ false = ground (arith, mem-append x xs (l.tail ∷ [])) in
    rw (k.linked.0) n

not_empty_back :
    (h : Links) (l : LinkedList) (x : ℕ) (xs : List ℕ)
    → IsList h l (xs ++ x ∷ [])
    → (h.next l.head == l.tail) ≡ false
not_empty_back h l x [] k = not_empty h l x [] k
not_empty_back h l x (y ∷ ys) k = not_empty h l y (ys ++ x ∷ []) k

pub list_pop_front_lem :
    (h : Links) (l : LinkedList) (x : ℕ) (xs : List ℕ)
    → IsList h l (x ∷ xs)
    → (h' : Links) × (list_pop_front h l ≡ ok (x, h')) × IsList h' l xs
unfolding list_pop_front list_front list_empty list_begin list_end
list_pop_front_lem h l x xs k =
    let (h', e, k', u) = list_remove_lem h l [] x xs k in
    let z : (l.head == 0) ≡ false = let m = k.not_null in ground arith in
    let n = rw (k.linked.0) at (not_empty h l x xs k) in (h', rw (z, k.linked.0, n, e) refl, k')

pub list_pop_back_lem :
    (h : Links) (l : LinkedList) (x : ℕ) (xs : List ℕ)
    → IsList h l (xs ++ x ∷ [])
    → (h' : Links) × (list_pop_back h l ≡ ok (x, h')) × IsList h' l xs
unfolding list_pop_back list_back list_empty list_begin list_end
list_pop_back_lem h l x xs k =
    let (h', e, k', u) = list_remove_lem h l xs x [] k in
    let z : (l.head == 0) ≡ false = let m = k.not_null in ground arith in
    let ends : h.prev l.tail ≡ x = last_link h l.head xs x l.tail k.linked in
    (
      h',
      rw (z, not_empty_back h l x xs k, ends, e) refl,
      subst (λ (ys : List ℕ). IsList h' l ys) (append-nil xs) k',
    )
