-- ===== src/Kernel/LinkedList/Sorted.antt =====
-- pintos/src/lib/kernel/list.c, list_insert_ordered on lists.
use mathlib.Core.Path.{subst}
use cs162_group13_clone.Base.{
  ◌⊎◌, ℕ, zero, suc, ◌<◌, ◌≡◌, ◌≢◌, refl, sym, ap, Bool, true, false, not, ◌&&◌, List, [], ◌∷◌,
  ◌++◌, length, mem, ok, ◌==◌, if◌then◌else◌, arith, Bool-cases, inl, inr,
}
use cs162_group13_clone.Kernel.LinkedList.{Links, LinkedList, list_begin}
use cs162_group13_clone.Kernel.LinkedList.Nodes.{nodes, IsList, mem_head, mem_tail}
use cs162_group13_clone.Kernel.LinkedList.Update.{first}
use cs162_group13_clone.Kernel.LinkedList.Insert.{list_insert_lem}
use cs162_group13_clone.Kernel.LinkedList.Walk.{Walks, Walks-all, walk_next, link_to_first}
use cs162_group13_clone.Kernel.LinkedList.Order.{find_place, list_insert_ordered}

module _ (less : ℕ → ℕ → Bool) where
  -- No element is less than the one before it.
  abbrev pub ordered : List ℕ → Bool
  ordered [] = true
  ordered (x ∷ []) = true
  ordered (x ∷ y ∷ ys) = not (less y x) && ordered (y ∷ ys)

  -- Before the first element that e is less than.
  abbrev pub insert_sorted : ℕ → List ℕ → List ℕ
  insert_sorted e [] = e ∷ []
  insert_sorted e (x ∷ xs) = if less e x then e ∷ x ∷ xs else x ∷ insert_sorted e xs

  ordered-insert_behind :
      (e x : ℕ) (xs : List ℕ)
      → ((y : ℕ) → mem y xs ≡ true → less e y ≡ true → less y e ≡ false)
      → less e x ≡ false
      → ordered (x ∷ xs) ≡ true
      → ordered (x ∷ insert_sorted e xs) ≡ true
  ordered-insert_behind e x [] a n o = rw n refl
  ordered-insert_behind e x (y ∷ ys) a n o = elim (Bool-cases (less e y)) [
    | inl t ↦ rw (t, n, a y (mem_head y ys) t) (ground arith)
    | inr t ↦ rw t (
        let rest = ordered-insert_behind e y ys (λ z m. a z (mem_tail z y ys m)) t (ground arith) in
        ground (arith, o, rest))
  ]

  ordered-insert_sorted :
      (e : ℕ) (xs : List ℕ)
      → ((y : ℕ) → mem y xs ≡ true → less e y ≡ true → less y e ≡ false)
      → ordered xs ≡ true
      → ordered (insert_sorted e xs) ≡ true
  ordered-insert_sorted e [] a o = refl
  ordered-insert_sorted e (x ∷ xs) a o = elim (Bool-cases (less e x)) [
    | inl t ↦ rw (t, a x (mem_head x xs) t) o
    | inr t ↦ rw t (ordered-insert_behind e x xs (λ z m. a z (mem_tail z x xs m)) t o)
  ]

  -- An element of xs that is less than e and that e is less than.
  abbrev pub Clash : ℕ → List ℕ → Type 0
  Clash e xs = (y : ℕ) × (mem y xs ≡ true) × (less e y ≡ true) × (less y e ≡ true)

  no-Clash :
      (e : ℕ) (xs : List ℕ)
      → Clash e xs ⊎ ((y : ℕ) → mem y xs ≡ true → less e y ≡ true → less y e ≡ false)
  no-Clash e [] = inr (λ y m. absurd cc)
  no-Clash e (x ∷ xs) = elim (Bool-cases (less e x && less x e)) [
    | inl t ↦ inl (x, mem_head x xs, ground arith, ground arith)
    | inr t ↦ elim (no-Clash e xs) [
      | inl (y, m, p, q) ↦ inl (y, mem_tail y x xs m, p, q)
      | inr f ↦ inr (λ y m p. elim (Bool-cases (y == x)) [
        | inl s ↦
            let same : y ≡ x = ground arith in
            let p' = subst (λ (z : ℕ). less e z ≡ true) same p in
            let done : less x e ≡ false = ground (arith, t, p') in rw same done
        | inr s ↦ f y (ground arith) p
      ])
    ]
  ]

  stays_ordered :
      (e : ℕ) (xs : List ℕ)
      → (ordered xs ≡ false) ⊎ (Clash e xs ⊎ (ordered (insert_sorted e xs) ≡ true))
  stays_ordered e xs = elim (Bool-cases (ordered xs)) [
    | inr t ↦ inl t
    | inl t ↦ elim (no-Clash e xs) [
      | inl c ↦ inr (inl c)
      | inr a ↦ inr (inr (ordered-insert_sorted e xs a t))
    ]
  ]

  -- Where `find_place` stops: a place that splits the list as the insertion does.
  record Place (fuel : ℕ) (h : Links) (l : LinkedList) (e : ℕ) (xs : List ℕ) : Type 0 where
    pre : List ℕ
    post : List ℕ
    split : xs ≡ pre ++ post
    found : find_place less fuel h l e (first xs l.tail) ≡ ok (first post l.tail)
    put : insert_sorted e xs ≡ pre ++ e ∷ post

  find_place_lem :
      (fuel : ℕ) (h : Links) (l : LinkedList) (e a : ℕ) (xs : List ℕ)
      → Walks h l a xs
      → length xs < fuel
      → Place fuel h l e xs
  unfolding find_place
  find_place_lem zero h l e a xs w f = absurd (omega arith)
  find_place_lem (suc fuel) h l e a [] w f =
      let t : (l.tail == l.tail) ≡ true = ground arith in
      record { pre = []; post = []; split = refl; found = rw t refl; put = refl }
  find_place_lem (suc fuel) h l e a (x ∷ xs) w f =
      let (n, step, w') = walk_next h l a x xs w in
      elim (Bool-cases (less e x)) [
        | inl t ↦ record {
          pre = [];
          post = x ∷ xs;
          split = refl;
          found = rw (n, t) refl;
          put = rw t refl;
        }
        | inr t ↦
            let rest = find_place_lem fuel h l e x xs w' (omega arith) in
            record {
              pre = x ∷ rest.pre;
              post = rest.post;
              split = ap (λ (ys : List ℕ). x ∷ ys) rest.split;
              found = rw (n, t, step) rest.found;
              put = rw t (ap (λ (ys : List ℕ). x ∷ ys) rest.put);
            }
      ]

  -- `list_insert_ordered` of an element that is not null and not in the list comes to an end, within
  -- one round more than the list has elements, and leaves the list with the new element before the
  -- first one it is less than. The list is in order then, unless it was not in order before, or an
  -- element of it is less than the new one and the new one less than that element.
  pub list_insert_ordered_lem :
      (fuel : ℕ) (h : Links) (l : LinkedList) (xs : List ℕ) (e : ℕ)
      → IsList h l xs
      → mem e (nodes l xs) ≡ false
      → e ≢ 0
      → length xs < fuel
      → (h' : Links) × (list_insert_ordered less fuel h l e ≡ ok h')
        × IsList h' l (insert_sorted e xs)
        × ((ordered xs ≡ false) ⊎ (Clash e xs ⊎ (ordered (insert_sorted e xs) ≡ true)))
  unfolding list_insert_ordered list_begin
  list_insert_ordered_lem fuel h l xs e k fresh n f =
      let z : (l.head == 0) ≡ false = let m = k.not_null in ground arith in
      let u : (e == 0) ≡ false = ground arith in
      let p = find_place_lem fuel h l e l.head xs (Walks-all h l xs k) f in
      let (h', done, k', same) =
        list_insert_lem h l p.pre p.post e (subst (λ (ys : List ℕ). IsList h l ys) p.split k)
          (subst (λ (ys : List ℕ). mem e (nodes l ys) ≡ false) p.split fresh) n in
      (
        h',
        rw (z, u, link_to_first h l l.head xs k.linked, p.found) done,
        subst (λ (ys : List ℕ). IsList h' l ys) (sym p.put) k',
        stays_ordered e xs,
      )
