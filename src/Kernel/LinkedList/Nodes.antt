-- ===== src/Kernel/LinkedList/Nodes.antt =====
-- When the links of a heap form a list: its nodes, head and tail included, follow each other both ways.
use cs162_group13_clone.Base.{
  ℕ, ◌≡◌, refl, ap, ◌∙◌, true, false, ◌||◌, List, [], ◌∷◌, ◌++◌, mem, distinct, ◌==◌, arith,
  Bool-cases, inl, inr,
}
use cs162_group13_clone.Kernel.LinkedList.{Links, LinkedList}

abbrev pub Linked : Links → List ℕ → Type 0
Linked h [] = Unit {0}
Linked h (a ∷ []) = Unit {0}
Linked h (a ∷ b ∷ ns) = (h.next a ≡ b) × (h.prev b ≡ a) × Linked h (b ∷ ns)

abbrev pub nodes : LinkedList → List ℕ → List ℕ
nodes l xs = l.head ∷ (xs ++ l.tail ∷ [])

-- The list at l has the elements xs, in this order.
pub record IsList (h : Links) (l : LinkedList) (xs : List ℕ) : Type 0 where
  pub linked : Linked h (nodes l xs)
  pub no_prev : h.prev l.head ≡ 0
  pub no_next : h.next l.tail ≡ 0
  pub apart : distinct (nodes l xs) ≡ true
  pub not_null : mem 0 (nodes l xs) ≡ false

pub mem_head : (p : ℕ) (ns : List ℕ) → mem p (p ∷ ns) ≡ true
mem_head p ns = ground arith

pub mem_tail : (p q : ℕ) (ns : List ℕ) → mem p ns ≡ true → mem p (q ∷ ns) ≡ true
mem_tail p q ns h = ground (arith, h)

pub mem-append : (p : ℕ) (xs ys : List ℕ) → mem p (xs ++ ys) ≡ (mem p xs || mem p ys)
mem-append p [] ys = refl
mem-append p (x ∷ xs) ys = ground (arith, mem-append p xs ys)

-- A run of nodes is two runs and the links between them.
pub Linked-split :
    (h : Links) (us : List ℕ) (a b : ℕ) (vs : List ℕ)
    → Linked h (us ++ a ∷ b ∷ vs)
    → Linked h (us ++ a ∷ []) × (h.next a ≡ b) × (h.prev b ≡ a) × Linked h (b ∷ vs)
Linked-split h [] a b vs l = (tt, l.0, l.1, l.2)
Linked-split h (x ∷ []) a b vs l = ((l.0, l.1, tt), l.2.0, l.2.1, l.2.2)
Linked-split h (x ∷ y ∷ us) a b vs l =
    let (p, q, r, t) = Linked-split h (y ∷ us) a b vs l.2 in ((l.0, l.1, p), q, r, t)

pub Linked-join :
    (h : Links) (us : List ℕ) (a b : ℕ) (vs : List ℕ)
    → Linked h (us ++ a ∷ [])
    → h.next a ≡ b
    → h.prev b ≡ a
    → Linked h (b ∷ vs)
    → Linked h (us ++ a ∷ b ∷ vs)
Linked-join h [] a b vs l p q r = (p, q, r)
Linked-join h (x ∷ []) a b vs l p q r = (l.0, l.1, (p, q, r))
Linked-join h (x ∷ y ∷ us) a b vs l p q r = (l.0, l.1, Linked-join h (y ∷ us) a b vs l.2 p q r)

-- Of a run, only the first node's prev and the last one's next do not matter.
pub Linked-same :
    (h h' : Links) (a : ℕ) (ns : List ℕ)
    → ((p : ℕ) → mem p (a ∷ ns) ≡ true → h'.next p ≡ h.next p)
    → ((p : ℕ) → mem p ns ≡ true → h'.prev p ≡ h.prev p)
    → Linked h (a ∷ ns)
    → Linked h' (a ∷ ns)
Linked-same h h' a [] f g l = tt
Linked-same h h' a (b ∷ ns) f g l = (
  f a (mem_head a (b ∷ ns)) ∙ l.0,
  g b (mem_head b ns) ∙ l.1,
  Linked-same h h' b ns (λ p m. f p (mem_tail p a (b ∷ ns) m)) (λ p m. g p (mem_tail p b ns m)) l.2,
)

pub Linked-same_before :
    (h h' : Links) (us : List ℕ) (a : ℕ)
    → ((p : ℕ) → mem p us ≡ true → h'.next p ≡ h.next p)
    → ((p : ℕ) → mem p (us ++ a ∷ []) ≡ true → h'.prev p ≡ h.prev p)
    → Linked h (us ++ a ∷ [])
    → Linked h' (us ++ a ∷ [])
Linked-same_before h h' [] a f g l = tt
Linked-same_before h h' (x ∷ []) a f g l =
    (f x (mem_head x []) ∙ l.0, g a (mem_tail a x (a ∷ []) (mem_head a [])) ∙ l.1, tt)
Linked-same_before h h' (x ∷ y ∷ us) a f g l = (
  f x (mem_head x (y ∷ us)) ∙ l.0,
  g y (mem_tail y x (y ∷ (us ++ a ∷ [])) (mem_head y (us ++ a ∷ []))) ∙ l.1,
  Linked-same_before h h' (y ∷ us) a (λ p m. f p (mem_tail p x (y ∷ us) m))
      (λ p m. g p (mem_tail p x (y ∷ (us ++ a ∷ [])) m)) l.2,
)

-- What two disjoint runs share: nothing.
pub apart_ne : (p e : ℕ) (ns : List ℕ) → mem p ns ≡ true → mem e ns ≡ false → (p == e) ≡ false
apart_ne p e [] m n = absurd cc
apart_ne p e (x ∷ xs) m n = elim (Bool-cases (p == x)) [
  | inl t ↦ ground arith
  | inr t ↦ apart_ne p e xs (ground arith) (ground arith)
]

pub distinct-append :
    (xs ys : List ℕ) (p : ℕ) → distinct (xs ++ ys) ≡ true → mem p xs ≡ true → mem p ys ≡ false
distinct-append [] ys p d m = absurd cc
distinct-append (x ∷ xs) ys p d m = elim (Bool-cases (p == x)) [
  | inl t ↦ ground (arith, mem-append x xs ys)
  | inr t ↦ distinct-append xs ys p (ground arith) (ground arith)
]

pub distinct_right : (xs ys : List ℕ) → distinct (xs ++ ys) ≡ true → distinct ys ≡ true
distinct_right [] ys d = d
distinct_right (x ∷ xs) ys d = distinct_right xs ys (ground arith)

pub distinct-insert :
    (xs ys : List ℕ) (e : ℕ)
    → distinct (xs ++ ys) ≡ true
    → mem e (xs ++ ys) ≡ false
    → distinct (xs ++ e ∷ ys) ≡ true
distinct-insert [] ys e d m = ground arith
distinct-insert (x ∷ xs) ys e d m = ground (
  arith,
  mem-append x xs ys,
  mem-append x xs (e ∷ ys),
  distinct-insert xs ys e (ground arith) (ground arith),
)

pub distinct-delete :
    (xs ys : List ℕ) (e : ℕ) → distinct (xs ++ e ∷ ys) ≡ true → distinct (xs ++ ys) ≡ true
distinct-delete [] ys e d = ground arith
distinct-delete (x ∷ xs) ys e d =
    ground
      (arith, mem-append x xs ys, mem-append x xs (e ∷ ys), distinct-delete xs ys e (ground arith))

-- A run that is not empty has a last node.
pub last_of : (x : ℕ) (xs : List ℕ) → (us : List ℕ) × (a : ℕ) × (x ∷ xs ≡ us ++ a ∷ [])
last_of x [] = ([], x, refl)
last_of x (y ∷ ys) = let (us, a, e) = last_of y ys in (x ∷ us, a, ap (λ (l : List ℕ). x ∷ l) e)
