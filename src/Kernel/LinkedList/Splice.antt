-- ===== src/Kernel/LinkedList/Splice.antt =====
-- list_splice of one element of a list to a place before it.
use mathlib.Core.Path.{subst}
use mathlib.Core.List.{append_assoc}
use cs162_group13_clone.Base.{
  ℕ, ◌≡◌, refl, sym, ap, ◌∙◌, true, false, ◌||◌, List, [], ◌∷◌, ◌++◌, mem, distinct, ok,
  ok-injective, ◌==◌, arith,
}
use cs162_group13_clone.Kernel.LinkedList.{
  Links, LinkedList, is_interior, is_tail, insert_links, list_insert, remove_links, list_remove,
  splice_links, list_splice, list_next, list_prev,
}
use cs162_group13_clone.Kernel.LinkedList.Nodes.{
  Linked, nodes, IsList, mem-append, Linked-split, distinct_right,
}
use cs162_group13_clone.Kernel.LinkedList.Update.{first, around}
use cs162_group13_clone.Kernel.LinkedList.Insert.{nodes-insert, list_insert_lem}
use cs162_group13_clone.Kernel.LinkedList.Remove.{list_remove_lem}

-- An element of a list and the node behind it.
pub record Element (h : Links) (x b : ℕ) : Type 0 where
  pub not_null : (x == 0) ≡ false
  pub before_b : h.prev b ≡ x
  pub inner : is_interior h x ≡ true
  pub b_inside : (is_interior h b || is_tail h b) ≡ true
  pub next_is : list_next h x ≡ ok b
  pub prev_is : list_prev h b ≡ ok x
  pub apart : (x == b) ≡ false

pub element :
    (h : Links) (l : LinkedList) (pre : List ℕ) (x : ℕ) (post : List ℕ)
    → IsList h l (pre ++ x ∷ post)
    → Element h x (first post l.tail)
unfolding list_next list_prev
element h l pre x post k =
    let r = around l pre post in
    let b = first post l.tail in
    let old = nodes-insert l pre post x r in
    let linked : Linked h (r.us ++ r.a ∷ x ∷ b ∷ r.vs) =
      subst (λ (ns : List ℕ). Linked h ns) old k.linked in
    let z : mem 0 (r.us ++ r.a ∷ x ∷ b ∷ r.vs) ≡ false =
      subst (λ (ns : List ℕ). mem 0 ns ≡ false) old k.not_null in
    let d : distinct (r.us ++ r.a ∷ x ∷ b ∷ r.vs) ≡ true =
      subst (λ (ns : List ℕ). distinct ns ≡ true) old k.apart in
    let zs = mem-append 0 r.us (r.a ∷ x ∷ b ∷ r.vs) in
    let n = distinct_right r.us (r.a ∷ x ∷ b ∷ r.vs) d in
    let az : (r.a == 0) ≡ false = ground arith in
    let bz : (b == 0) ≡ false = ground arith in
    let xz : (x == 0) ≡ false = ground arith in
    let (left, to_x, from_x, right) = Linked-split h r.us r.a x (b ∷ r.vs) linked in
    let inner : is_interior h x ≡ true = rw (from_x, right.0, xz, az, bz) refl in
    let inside : (is_interior h b || is_tail h b) ≡ true = rw (right.1, xz, bz) (ground arith) in
    record {
      not_null = xz;
      before_b = right.1;
      inner = inner;
      b_inside = inside;
      next_is = rw (from_x, right.0, xz, az, bz) refl;
      prev_is = rw inside (ap ok right.1);
      apart = ground arith;
    }

-- As if the element were removed and inserted again.
spliced : (h : Links) (a x : ℕ) → splice_links h a x x ≡ insert_links (remove_links h x) a x
spliced h a x = refl

not_again :
    (xs : List ℕ) (x : ℕ) (post ns : List ℕ)
    → distinct ((xs ++ x ∷ post) ++ ns) ≡ true
    → mem x ((xs ++ post) ++ ns) ≡ false
not_again [] x post ns d = ground arith
not_again (y ∷ xs) x post ns d = ground (
  arith,
  mem-append y (xs ++ x ∷ post) ns,
  mem-append y xs (x ∷ post),
  not_again xs x post ns (ground arith),
)

removal :
    (h : Links) (x : ℕ)
    → is_interior h x ≡ true
    → list_remove h x ≡ ok ((remove_links h x).next x, remove_links h x)
unfolding list_remove
removal h x t = rw t refl

insertion :
    (h : Links) (b x : ℕ)
    → (is_interior h b || is_tail h b) ≡ true
    → (x == 0) ≡ false
    → list_insert h b x ≡ ok (insert_links h b x)
unfolding list_insert
insertion h b x t z = rw (t, z) refl

splicing :
    (h : Links) (a x b : ℕ)
    → Element h x b
    → (is_interior h a || is_tail h a) ≡ true
    → list_splice h a x b ≡ ok (splice_links h a x x)
unfolding list_splice
splicing h a x b e t = rw (t, e.apart, e.prev_is, e.inner) refl

inside_of : (h : Links) (a b : ℕ) → Element h a b → (is_interior h a || is_tail h a) ≡ true
inside_of h a b e = let i = e.inner in rw i refl

pub list_splice_one :
    (h : Links) (l : LinkedList) (pre : List ℕ) (a : ℕ) (mid : List ℕ) (x : ℕ) (post : List ℕ)
    → IsList h l (pre ++ a ∷ (mid ++ x ∷ post))
    → (h' : Links) × (list_splice h a x (first post l.tail) ≡ ok h')
      × IsList h' l (pre ++ x ∷ a ∷ (mid ++ post))
list_splice_one h l pre a mid x post k =
    let k1 : IsList h l ((pre ++ a ∷ mid) ++ x ∷ post) =
      subst (λ (ns : List ℕ). IsList h l ns) (sym (append_assoc pre (a ∷ mid) (x ∷ post))) k in
    let at_x = element h l (pre ++ a ∷ mid) x post k1 in
    let at_a = element h l pre a (mid ++ x ∷ post) k in
    let (h1, e1, r1, u1) = list_remove_lem h l (pre ++ a ∷ mid) x post k1 in
    let removed : remove_links h x ≡ h1 =
      ap (λ (p : ℕ × Links). p.1) (ok-injective (sym (removal h x at_x.inner) ∙ e1)) in
    let r2 = subst (λ (ns : List ℕ). IsList h1 l ns) (append_assoc pre (a ∷ mid) post) r1 in
    let fresh : mem x (nodes l (pre ++ a ∷ (mid ++ post))) ≡ false =
      subst (λ (ns : List ℕ). mem x (nodes l ns) ≡ false) (append_assoc pre (a ∷ mid) post)
        (not_again (l.head ∷ (pre ++ a ∷ mid)) x post (l.tail ∷ []) k1.apart) in
    let xz = at_x.not_null in
    let (h2, e2, r3, u2) = list_insert_lem h1 l pre (a ∷ (mid ++ post)) x r2 fresh (ground arith) in
    let at_a1 = element h1 l pre a (mid ++ post) r2 in
    let inserted : insert_links h1 a x ≡ h2 =
      ok-injective (sym (insertion h1 a x (inside_of h1 a _ at_a1) xz) ∙ e2) in
    (
      h2,
      splicing h a x (first post l.tail) at_x (inside_of h a _ at_a)
          ∙ ap ok (ap (λ (g : Links). insert_links g a x) removed ∙ inserted),
      r3,
    )
