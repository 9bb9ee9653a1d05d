-- ===== src/Kernel/LinkedList/Insert.antt =====
-- pintos/src/lib/kernel/list.c, list_insert, list_push_front and list_push_back on lists.
use mathlib.Core.Path.{subst}
use mathlib.Core.List.{append_assoc, append-nil}
use cs162_group13_clone.Base.{
  ℕ, ◌≡◌, ◌≢◌, refl, sym, ap, ◌∙◌, true, false, ◌||◌, List, [], ◌∷◌, ◌++◌, mem, distinct, ok, ◌==◌,
  arith, Bool-cases, inl, inr,
}
use cs162_group13_clone.Kernel.LinkedList.{
  Links, LinkedList, is_interior, is_tail, insert_links, list_insert, list_push_back,
  list_push_front, list_begin, list_end,
}
use cs162_group13_clone.Kernel.LinkedList.Nodes.{
  Linked, nodes, IsList, mem_head, mem-append, Linked-split, distinct-insert,
}
use cs162_group13_clone.Kernel.LinkedList.Update.{
  first, Around, around, nodes-Around, regroup, before_a, behind_b, apart_ab, insert_next,
  insert_prev, inserted,
}

-- Of the links of nodes that are not named, none changes.
pub record Untouched (h h' : Links) (ns : List ℕ) : Type 0 where
  pub nexts : (p : ℕ) → mem p ns ≡ false → h'.next p ≡ h.next p
  pub prevs : (p : ℕ) → mem p ns ≡ false → h'.prev p ≡ h.prev p

pub nodes-insert :
    (l : LinkedList) (pre post : List ℕ) (e : ℕ) (r : Around l pre post)
    → nodes l (pre ++ e ∷ post) ≡ r.us ++ r.a ∷ e ∷ first post l.tail ∷ r.vs
nodes-insert l pre post e r =
    ap (λ (ws : List ℕ). l.head ∷ ws) (append_assoc pre (e ∷ post) (l.tail ∷ []))
    ∙ regroup l.head pre r.us r.a (e ∷ (post ++ l.tail ∷ [])) r.left
    ∙ ap (λ (ws : List ℕ). r.us ++ r.a ∷ e ∷ ws) r.right

insert_distinct :
    (us : List ℕ) (a : ℕ) (ws : List ℕ) (e : ℕ)
    → distinct (us ++ a ∷ ws) ≡ true
    → mem e (us ++ a ∷ ws) ≡ false
    → distinct (us ++ a ∷ e ∷ ws) ≡ true
insert_distinct us a ws e d m =
    let split = append_assoc us (a ∷ []) ws in
    subst (λ (ns : List ℕ). distinct ns ≡ true) (append_assoc us (a ∷ []) (e ∷ ws))
      (distinct-insert (us ++ a ∷ []) ws e
        (subst (λ (ns : List ℕ). distinct ns ≡ true) (sym split) d)
        (subst (λ (ns : List ℕ). mem e ns ≡ false) (sym split) m))

pub names :
    (us : List ℕ) (a e b : ℕ) (vs : List ℕ) (p : ℕ)
    → mem p (us ++ a ∷ e ∷ b ∷ vs) ≡ false
    → ((p == a) ≡ false) × ((p == b) ≡ false) × ((p == e) ≡ false)
names us a e b vs p m =
    let k = mem-append p us (a ∷ e ∷ b ∷ vs) in (ground arith, ground arith, ground arith)

module _ (l : LinkedList) (pre post : List ℕ) (r : Around l pre post)
    (d : distinct (r.us ++ r.a ∷ first post l.tail ∷ r.vs) ≡ true) where
  pub head_ne : (l.head == first post l.tail) ≡ false
  head_ne =
      let m : mem l.head (r.us ++ r.a ∷ []) ≡ true =
        subst (λ (ns : List ℕ). mem l.head ns ≡ true) r.left (mem_head l.head pre) in
      elim (Bool-cases (mem l.head r.us)) [
        | inl t ↦ (before_a r.us r.a (first post l.tail) r.vs d l.head t).1
        | inr t ↦
            let n = apart_ab r.us r.a (first post l.tail) r.vs d in
            let k = mem-append l.head r.us (r.a ∷ []) in ground arith
      ]

  pub tail_ne : (l.tail == r.a) ≡ false
  tail_ne =
      let m : mem l.tail (first post l.tail ∷ r.vs) ≡ true =
        subst (λ (ns : List ℕ). mem l.tail ns ≡ true) r.right
          (ground (arith, mem-append l.tail post (l.tail ∷ []))) in
      elim (Bool-cases (l.tail == first post l.tail)) [
        | inl t ↦ let n = apart_ab r.us r.a (first post l.tail) r.vs d in ground arith
        | inr t ↦ (behind_b r.us r.a (first post l.tail) r.vs d l.tail (ground arith)).0
      ]

-- `list_insert` before any element of a list or before its tail, of an element that is not null and
-- not in the list, leaves the list with the new element there, and no links of other nodes change.
pub list_insert_lem :
    (h : Links) (l : LinkedList) (pre post : List ℕ) (e : ℕ)
    → IsList h l (pre ++ post)
    → mem e (nodes l (pre ++ post)) ≡ false
    → e ≢ 0
    → (h' : Links) × (list_insert h (first post l.tail) e ≡ ok h')
      × IsList h' l (pre ++ e ∷ post)
      × Untouched h h' (nodes l (pre ++ e ∷ post))
unfolding list_insert
list_insert_lem h l pre post e x fresh n =
    let r = around l pre post in
    let b = first post l.tail in
    let same = nodes-Around l pre post r in
    let linked : Linked h (r.us ++ r.a ∷ b ∷ r.vs) =
      subst (λ (ns : List ℕ). Linked h ns) same x.linked in
    let d : distinct (r.us ++ r.a ∷ b ∷ r.vs) ≡ true =
      subst (λ (ns : List ℕ). distinct ns ≡ true) same x.apart in
    let f : mem e (r.us ++ r.a ∷ b ∷ r.vs) ≡ false =
      subst (λ (ns : List ℕ). mem e ns ≡ false) same fresh in
    let z : mem 0 (r.us ++ r.a ∷ b ∷ r.vs) ≡ false =
      subst (λ (ns : List ℕ). mem 0 ns ≡ false) same x.not_null in
    let bz : (b == 0) ≡ false = ground (arith, mem-append 0 r.us (r.a ∷ b ∷ r.vs)) in
    let az : (r.a == 0) ≡ false = ground (arith, mem-append 0 r.us (r.a ∷ b ∷ r.vs)) in
    let back : h.prev b ≡ r.a = (Linked-split h r.us r.a b r.vs linked).2 in
    let t : (is_interior h b || is_tail h b) ≡ true = rw (back, bz, az) (ground arith) in
    let u : (e == 0) ≡ false = ground arith in
    let new = nodes-insert l pre post e r in
    let head_e : (l.head == e) ≡ false = ground arith in
    let tail_e : (l.tail == e) ≡ false = ground (arith, mem-append e (pre ++ post) (l.tail ∷ [])) in
    (
      insert_links h b e,
      rw (t, u) refl,
      record {
        linked =
            subst (λ (ns : List ℕ). Linked (insert_links h b e) ns) (sym new)
              (inserted h r.us r.a b r.vs linked d e f);
        no_prev =
            insert_prev h r.us r.a b r.vs linked d e f l.head (head_ne l pre post r d) head_e
            ∙ x.no_prev;
        no_next =
            insert_next h r.us r.a b r.vs linked d e f l.tail (tail_ne l pre post r d) tail_e
            ∙ x.no_next;
        apart =
            subst (λ (ns : List ℕ). distinct ns ≡ true) (sym new)
              (insert_distinct r.us r.a (b ∷ r.vs) e d f);
        not_null =
            subst (λ (ns : List ℕ). mem 0 ns ≡ false) (sym new)
              (ground (
                arith,
                mem-append 0 r.us (r.a ∷ e ∷ b ∷ r.vs),
                mem-append 0 r.us (r.a ∷ b ∷ r.vs),
              ));
      },
      record {
        nexts = λ p m.
            let (pa, pb, pe) =
              names r.us r.a e b r.vs p (subst (λ (ns : List ℕ). mem p ns ≡ false) new m) in
            insert_next h r.us r.a b r.vs linked d e f p pa pe;
        prevs = λ p m.
            let (pa, pb, pe) =
              names r.us r.a e b r.vs p (subst (λ (ns : List ℕ). mem p ns ≡ false) new m) in
            insert_prev h r.us r.a b r.vs linked d e f p pb pe;
      },
    )

-- `list_push_back` and `list_push_front` put a new element at the end and at the front.
pub list_push_lem :
    (h : Links) (l : LinkedList) (xs : List ℕ) (e : ℕ)
    → IsList h l xs
    → mem e (nodes l xs) ≡ false
    → e ≢ 0
    → ((h' : Links) × (list_push_back h l e ≡ ok h') × IsList h' l (xs ++ e ∷ []))
      × ((h' : Links) × (list_push_front h l e ≡ ok h') × IsList h' l (e ∷ xs))
unfolding list_push_back list_push_front list_begin list_end
list_push_lem h l xs e x fresh n =
    let z : (l.head == 0) ≡ false = let k = x.not_null in ground arith in
    let nil : xs ++ [] ≡ xs = append-nil xs in
    let (h1, e1, x1, u1) =
      list_insert_lem h l xs [] e (subst (λ (ys : List ℕ). IsList h l ys) (sym nil) x)
        (subst (λ (ys : List ℕ). mem e (nodes l ys) ≡ false) (sym nil) fresh) n in
    let (h2, e2, x2, u2) = list_insert_lem h l [] xs e x fresh n in
    let begins : h.next l.head ≡ first xs l.tail = front_of h l xs x.linked in
    ((h1, rw z e1, x1), (h2, rw (z, begins) e2, x2))
  where
    front_of :
        (h : Links) (l : LinkedList) (xs : List ℕ)
        → Linked h (nodes l xs)
        → h.next l.head ≡ first xs l.tail
    front_of h l [] k = k.0
    front_of h l (y ∷ ys) k = k.0
