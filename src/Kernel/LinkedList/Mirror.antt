-- ===== src/Kernel/LinkedList/Mirror.antt =====
-- A run of nodes seen from its other end, and the swaps that end list_reverse.
use mathlib.Core.Path.{subst}
use mathlib.Core.List.{append_assoc}
use cs162_group13_clone.Base.{
  ℕ, ◌≡◌, refl, sym, ◌∙◌, true, false, List, [], ◌∷◌, ◌++◌, mem, distinct, distinct-snoc, mem-snoc,
  ◌==◌, if◌then◌else◌, arith,
}
use cs162_group13_clone.Kernel.LinkedList.{Links, LinkedList, swap_ends}
use cs162_group13_clone.Kernel.LinkedList.Nodes.{
  Linked, nodes, IsList, mem_head, mem_tail, Linked-join, apart_ne,
}
use cs162_group13_clone.Kernel.LinkedList.Update.{first}
use cs162_group13_clone.Kernel.LinkedList.Walk.{Walks-all}

abbrev pub reverse : List ℕ → List ℕ
reverse [] = []
reverse (x ∷ xs) = reverse xs ++ x ∷ []

pub mem-reverse : (p : ℕ) (xs : List ℕ) → mem p (reverse xs) ≡ mem p xs
mem-reverse p [] = refl
mem-reverse p (x ∷ xs) = ground (arith, mem-snoc p (reverse xs) x, mem-reverse p xs)

pub distinct-reverse : (xs : List ℕ) → distinct xs ≡ true → distinct (reverse xs) ≡ true
distinct-reverse [] d = refl
distinct-reverse (x ∷ xs) d =
    distinct-snoc (reverse xs) x (mem-reverse x xs ∙ ground arith)
      (distinct-reverse xs (ground arith))

-- The heap with the two kinds of links swapped everywhere.
abbrev pub mirror : Links → Links
mirror h = record { prev = h.next; next = h.prev }

pub Linked-reverse : (h : Links) (ns : List ℕ) → Linked h ns → Linked (mirror h) (reverse ns)
Linked-reverse h [] k = tt
Linked-reverse h (a ∷ []) k = tt
Linked-reverse h (a ∷ b ∷ ns) k =
    subst (λ (ws : List ℕ). Linked (mirror h) ws)
      (sym (append_assoc (reverse ns) (b ∷ []) (a ∷ [])))
      (Linked-join (mirror h) (reverse ns) b a [] (Linked-reverse h (b ∷ ns) k.2) k.1 k.0 tt)

pub Linked-init : (h : Links) (xs : List ℕ) (t : ℕ) → Linked h (xs ++ t ∷ []) → Linked h xs
Linked-init h [] t k = tt
Linked-init h (x ∷ []) t k = tt
Linked-init h (x ∷ y ∷ ys) t k = (k.0, k.1, Linked-init h (y ∷ ys) t k.2)

pub Linked-rest : (h : Links) (a : ℕ) (ns : List ℕ) → Linked h (a ∷ ns) → Linked h ns
Linked-rest h a [] k = tt
Linked-rest h a (b ∷ ns) k = k.2

-- Of a run, only the first node's prev and the last one's next do not matter.
pub Linked-inner :
    (h h' : Links) (us : List ℕ) (a : ℕ)
    → ((p : ℕ) → mem p us ≡ true → h'.next p ≡ h.next p)
    → ((p : ℕ) → mem p (us ++ a ∷ []) ≡ true → (p == first us a) ≡ false → h'.prev p ≡ h.prev p)
    → distinct (us ++ a ∷ []) ≡ true
    → Linked h (us ++ a ∷ [])
    → Linked h' (us ++ a ∷ [])
Linked-inner h h' [] a f g d k = tt
Linked-inner h h' (x ∷ []) a f g d k = (
  f x (mem_head x []) ∙ k.0,
  g a (mem_tail a x (a ∷ []) (mem_head a [])) (ground arith) ∙ k.1,
  tt,
)
Linked-inner h h' (x ∷ y ∷ us) a f g d k = (
  f x (mem_head x (y ∷ us)) ∙ k.0,
  g y (mem_tail y x (y ∷ (us ++ a ∷ [])) (mem_head y (us ++ a ∷ []))) (ground arith) ∙ k.1,
  Linked-inner h h' (y ∷ us) a (λ p m. f p (mem_tail p x (y ∷ us) m))
      (λ p m n.
        g p (mem_tail p x (y ∷ (us ++ a ∷ [])) m)
          (apart_ne p x (y ∷ (us ++ a ∷ [])) m (ground arith)))
      (ground arith) k.2,
)

pub first-append : (ys : List ℕ) (x a : ℕ) → first (ys ++ x ∷ []) a ≡ first ys x
first-append [] x a = refl
first-append (y ∷ ys) x a = refl

-- The last node before t.
pub last_node :
    (h : Links) (a : ℕ) (xs : List ℕ) (t : ℕ)
    → Linked h (a ∷ (xs ++ t ∷ []))
    → (h.prev t ≡ first (reverse xs) a) × (h.next (first (reverse xs) a) ≡ t)
last_node h a [] t k = (k.1, k.0)
last_node h a (x ∷ xs) t k = rw (first-append (reverse xs) x a) (last_node h x xs t k.2)

-- The two swaps behind the loop, where the first element and the last are neither the head nor the
-- tail.
module _ (h : Links) (l : LinkedList) (x0 xk : ℕ) (f : h.next l.head ≡ x0) (g : h.prev l.tail ≡ xk)
    (p0 : h.next x0 ≡ l.head) (pk : h.prev xk ≡ l.tail) (n0 : (x0 == l.head) ≡ false)
    (nk : (xk == l.tail) ≡ false) where
  pub swap_next :
      (p : ℕ)
      → (swap_ends h l).next p ≡ (if p == x0 then l.tail else if p == l.head then xk else h.next p)
  swap_next p =
      let hh : (l.head == l.head) ≡ true = ground arith in
      let tails : (l.tail == l.tail) ≡ true = ground arith in rw (f, g, hh, tails, nk, pk) refl

  pub swap_prev :
      (p : ℕ)
      → (swap_ends h l).prev p ≡ (if p == xk then l.head else if p == l.tail then x0 else h.prev p)
  swap_prev p =
      let hh : (l.head == l.head) ≡ true = ground arith in
      let tails : (l.tail == l.tail) ≡ true = ground arith in rw (f, g, hh, tails, n0, p0) refl

pub Linked-cons :
    (h : Links) (a : ℕ) (ys : List ℕ) (t : ℕ)
    → h.next a ≡ first ys t
    → h.prev (first ys t) ≡ a
    → Linked h (ys ++ t ∷ [])
    → Linked h (a ∷ (ys ++ t ∷ []))
Linked-cons h a [] t p q k = (p, q, tt)
Linked-cons h a (y ∷ ys) t p q k = (p, q, k)

distinct_left : (xs : List ℕ) (t : ℕ) → distinct (xs ++ t ∷ []) ≡ true → distinct xs ≡ true
distinct_left [] t d = refl
distinct_left (x ∷ xs) t d = ground (arith, mem-snoc x xs t, distinct_left xs t (ground arith))

pub first-mem : (ys : List ℕ) (x : ℕ) → mem (first ys x) (ys ++ x ∷ []) ≡ true
first-mem [] x = mem_head x []
first-mem (y ∷ ys) x = mem_head y (ys ++ x ∷ [])

-- What is known of the nodes of a list.
pub record Facts (l : LinkedList) (xs : List ℕ) : Type 0 where
  pub elems : distinct xs ≡ true
  pub no_head : mem l.head xs ≡ false
  pub no_tail : mem l.tail xs ≡ false
  pub ends : (l.head == l.tail) ≡ false

pub facts : (h : Links) (l : LinkedList) (xs : List ℕ) → IsList h l xs → Facts l xs
facts h l xs k =
    let a = k.apart in
    let m = mem-snoc l.head xs l.tail in
    record {
      elems = distinct_left xs l.tail (ground arith);
      no_head = ground arith;
      no_tail = (Walks-all h l xs k).no_tail;
      ends = ground arith;
    }

-- The nodes of a list in reverse are apart as well, and none is null.
pub reversed_nodes :
    (h : Links) (l : LinkedList) (xs : List ℕ)
    → IsList h l xs
    → (distinct (nodes l (reverse xs)) ≡ true) × (mem 0 (nodes l (reverse xs)) ≡ false)
reversed_nodes h l xs k =
    let f = facts h l xs k in
    let z = k.not_null in
    let e = f.ends in
    let c = f.no_head in
    let r =
      distinct-snoc (reverse xs) l.tail (mem-reverse l.tail xs ∙ f.no_tail)
        (distinct-reverse xs f.elems) in
    (
      ground (arith, mem-snoc l.head (reverse xs) l.tail, mem-reverse l.head xs),
      ground (arith, mem-snoc 0 (reverse xs) l.tail, mem-reverse 0 xs, mem-snoc 0 xs l.tail),
    )
