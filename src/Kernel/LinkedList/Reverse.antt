-- ===== src/Kernel/LinkedList/Reverse.antt =====
-- pintos/src/lib/kernel/list.c, list_reverse on lists.
use mathlib.Core.Path.{subst}
use mathlib.Core.List.{append_assoc}
use cs162_group13_clone.Base.{
  ℕ, ◌<◌, ◌≡◌, refl, sym, ap, ◌∙◌, true, false, List, [], ◌∷◌, ◌++◌, length, mem, ok, ◌==◌,
  if◌then◌else◌, arith,
}
use cs162_group13_clone.Kernel.LinkedList.{
  Links, LinkedList, swap_ends, list_reverse, list_empty, list_begin, list_end,
}
use cs162_group13_clone.Kernel.LinkedList.Nodes.{
  Linked, IsList, mem_head, mem_tail, Linked-join, apart_ne,
}
use cs162_group13_clone.Kernel.LinkedList.Update.{first}
use cs162_group13_clone.Kernel.LinkedList.Remove.{not_empty}
use cs162_group13_clone.Kernel.LinkedList.Flip.{Flipped, Linked-Follow, flip_elems_lem}
use cs162_group13_clone.Kernel.LinkedList.Mirror.{
  reverse, mirror, mem-reverse, distinct-reverse, Linked-reverse, Linked-init, Linked-rest,
  Linked-inner, first-append, last_node, swap_next, swap_prev, Linked-cons, first-mem, Facts, facts,
  reversed_nodes,
}

-- The heap after the loop, for a list that is not empty.
module _ (h h1 : Links) (l : LinkedList) (x : ℕ) (xs : List ℕ) (k : IsList h l (x ∷ xs))
    (r : Flipped h h1 (x ∷ xs)) where
  abbrev last : ℕ
  last = first (reverse xs) x

  fs : Facts l (x ∷ xs)
  fs = facts h l (x ∷ xs) k

  last_in : mem last (x ∷ xs) ≡ true
  last_in = sym (mem-reverse last (x ∷ xs)) ∙ first-mem (reverse xs) x

  head_next : h1.next l.head ≡ x
  head_next = let m = fs.no_head in r.nexts l.head ∙ rw m (k.linked.0)

  ends_at : (h.prev l.tail ≡ last) × (h.next last ≡ l.tail)
  ends_at =
      let (p, q) = last_node h l.head (x ∷ xs) l.tail k.linked in
      let e = first-append (reverse xs) x l.head in (p ∙ e, ap h.next (sym e) ∙ q)

  tail_prev : h1.prev l.tail ≡ last
  tail_prev = let m = fs.no_tail in r.prevs l.tail ∙ rw m (ends_at.0)

  first_next : h1.next x ≡ l.head
  first_next = r.nexts x ∙ rw (mem_head x xs) (k.linked.1)

  last_prev : h1.prev last ≡ l.tail
  last_prev = r.prevs last ∙ rw last_in (ends_at.1)

  x_head : (x == l.head) ≡ false
  x_head = apart_ne x l.head (x ∷ xs) (mem_head x xs) fs.no_head

  last_tail : (last == l.tail) ≡ false
  last_tail = apart_ne last l.tail (x ∷ xs) last_in fs.no_tail

  next_at :
      (p : ℕ)
      → (swap_ends h1 l).next p
        ≡ (if p == x then l.tail else if p == l.head then last else h1.next p)
  next_at = swap_next h1 l x last head_next tail_prev first_next last_prev x_head last_tail

  prev_at :
      (p : ℕ)
      → (swap_ends h1 l).prev p
        ≡ (if p == last then l.head else if p == l.tail then x else h1.prev p)
  prev_at = swap_prev h1 l x last head_next tail_prev first_next last_prev x_head last_tail

  inside : Linked (swap_ends h1 l) (reverse xs ++ x ∷ [])
  inside =
      Linked-inner (mirror h) (swap_ends h1 l) (reverse xs) x
        (λ p m.
          let in_xs : mem p xs ≡ true = sym (mem-reverse p xs) ∙ m in
          let all = mem_tail p x xs in_xs in
          let d = fs.elems in
          let n : (p == x) ≡ false = apart_ne p x xs in_xs (ground arith) in
          let n' = apart_ne p l.head (x ∷ xs) all fs.no_head in
          next_at p ∙ rw (n, n') (r.nexts p ∙ rw all refl))
        (λ p m n.
          let all : mem p (x ∷ xs) ≡ true = sym (mem-reverse p (x ∷ xs)) ∙ m in
          let n' = apart_ne p l.tail (x ∷ xs) all fs.no_tail in
          prev_at p ∙ rw (n, n') (r.prevs p ∙ rw all refl))
        (distinct-reverse (x ∷ xs) fs.elems)
        (Linked-reverse h (x ∷ xs)
          (Linked-init h (x ∷ xs) l.tail (Linked-rest h l.head (x ∷ (xs ++ l.tail ∷ [])) k.linked)))

  reversed : IsList (swap_ends h1 l) l (reverse (x ∷ xs))
  reversed =
      let xh : (l.head == x) ≡ false = let n = x_head in ground arith in
      let lh : (last == l.head) ≡ false = apart_ne last l.head (x ∷ xs) last_in fs.no_head in
      let hl : (l.head == last) ≡ false = ground arith in
      let tl : (l.tail == last) ≡ false = let n = last_tail in ground arith in
      let tx : (l.tail == x) ≡ false = let n = fs.no_tail in ground arith in
      let ht = fs.ends in
      let th : (l.tail == l.head) ≡ false = ground arith in
      let hh : (l.head == l.head) ≡ true = ground arith in
      let tt' : (l.tail == l.tail) ≡ true = ground arith in
      let xx : (x == x) ≡ true = ground arith in
      let ll : (last == last) ≡ true = ground arith in
      let end : Linked (swap_ends h1 l) ((reverse xs ++ x ∷ []) ++ l.tail ∷ []) =
        subst (λ (ns : List ℕ). Linked (swap_ends h1 l) ns)
          (sym (append_assoc (reverse xs) (x ∷ []) (l.tail ∷ [])))
          (Linked-join (swap_ends h1 l) (reverse xs) x l.tail [] inside (next_at x ∙ rw xx refl)
            (prev_at l.tail ∙ rw (tl, tt') refl) tt) in
      let e = first-append (reverse xs) x l.tail in
      let (d, z) = reversed_nodes h l (x ∷ xs) k in
      record {
        linked =
            Linked-cons (swap_ends h1 l) l.head (reverse (x ∷ xs)) l.tail
              (next_at l.head ∙ rw (xh, hh) (sym e))
              (ap (swap_ends h1 l).prev e ∙ prev_at last ∙ rw ll refl) end;
        no_prev =
            prev_at l.head ∙ rw (hl, ht) (r.prevs l.head ∙ (let m = fs.no_head in rw m k.no_prev));
        no_next =
            next_at l.tail ∙ rw (tx, th) (r.nexts l.tail ∙ (let m = fs.no_tail in rw m k.no_next));
        apart = d;
        not_null = z;
      }

-- `list_reverse` of a list comes to an end, within one round more than the list has elements, and
-- leaves the elements in reverse order, as a list both ways.
pub list_reverse_lem :
    (fuel : ℕ) (h : Links) (l : LinkedList) (xs : List ℕ)
    → IsList h l xs
    → length xs < fuel
    → (h' : Links) × (list_reverse fuel h l ≡ ok h') × IsList h' l (reverse xs)
unfolding list_reverse list_empty list_begin list_end
list_reverse_lem fuel h l [] k f =
    let z : (l.head == 0) ≡ false = let m = k.not_null in ground arith in
    let t : (l.tail == l.tail) ≡ true = ground arith in (h, rw (z, k.linked.0, t) refl, k)
list_reverse_lem fuel h l (x ∷ xs) k f =
    let z : (l.head == 0) ≡ false = let m = k.not_null in ground arith in
    let fs = facts h l (x ∷ xs) k in
    let n = rw (k.linked.0) at (not_empty h l x xs k) in
    let (h1, e, r) =
      flip_elems_lem fuel h l (x ∷ xs) (Linked-Follow h l.head (x ∷ xs) l.tail k.linked).1 fs.elems
        fs.no_tail f in
    (swap_ends h1 l, rw (z, k.linked.0, n, e) refl, reversed h h1 l x xs k r)
