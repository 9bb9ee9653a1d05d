-- ===== src/Kernel/LinkedList/Merge.antt =====
-- pintos/src/lib/kernel/list.c, inplace_merge on two runs of a list.
use mathlib.Core.Path.{subst}
use mathlib.Core.List.{append_assoc}
use cs162_group13_clone.Base.{
  ℕ, zero, suc, ◌+◌, ◌<◌, ◌≡◌, refl, sym, ap, ◌∙◌, Bool, true, false, ◌||◌, List, [], ◌∷◌, ◌++◌,
  mem, length, ok, ◌==◌, arith, Bool-cases, inl, inr,
}
use cs162_group13_clone.Kernel.LinkedList.{Links, LinkedList}
use cs162_group13_clone.Kernel.LinkedList.Nodes.{IsList}
use cs162_group13_clone.Kernel.LinkedList.Update.{first}
use cs162_group13_clone.Kernel.LinkedList.Splice.{element, list_splice_one}
use cs162_group13_clone.Kernel.LinkedList.Sorted.{ordered}
use cs162_group13_clone.Kernel.LinkedList.Runs.{not_end, move_on, is_sorted_lem, end_not_null}
use cs162_group13_clone.Kernel.LinkedList.Sort.{merge_from, inplace_merge}

module _ (less : ℕ → ℕ → Bool) where
  -- The lists that two lists merge to: the first elements are compared, and that of the right list
  -- is taken only if it is less.
  pub data Merges : List ℕ → List ℕ → List ℕ → Type 0 where
    none_left : (ys : List ℕ) → Merges [] ys ys
    none_right : (xs : List ℕ) → Merges xs [] xs
    take_left :
        (x y : ℕ) (xs ys zs : List ℕ)
        → less y x ≡ false
        → Merges xs (y ∷ ys) zs
        → Merges (x ∷ xs) (y ∷ ys) (x ∷ zs)
    take_right :
        (x y : ℕ) (xs ys zs : List ℕ)
        → less y x ≡ true
        → Merges (x ∷ xs) ys zs
        → Merges (x ∷ xs) (y ∷ ys) (y ∷ zs)

  -- What is there after a merge of xs and ys between pre and post.
  pub record Merged (h : Links) (l : LinkedList) (pre xs ys post : List ℕ) : Type 0 where
    pub heap : Links
    pub merged : List ℕ
    pub merges : Merges xs ys merged
    pub is_list : IsList heap l (pre ++ (merged ++ post))

  back_to :
      (h : Links) (l : LinkedList) (pre : List ℕ) (x : ℕ) (zs : List ℕ)
      → IsList h l ((pre ++ x ∷ []) ++ zs)
      → IsList h l (pre ++ x ∷ zs)
  back_to h l pre x zs k = subst (λ (ns : List ℕ). IsList h l ns) (append_assoc pre (x ∷ []) zs) k

  merge_from_lem :
      (fuel : ℕ) (h : Links) (l : LinkedList) (pre xs ys post : List ℕ)
      → IsList h l (pre ++ (xs ++ (ys ++ post)))
      → length xs + length ys < fuel
      → (r : Merged h l pre xs ys post) × (merge_from less fuel h
            (first (xs ++ (ys ++ post)) l.tail)
            (first (ys ++ post) l.tail)
            (first post l.tail)
          ≡ ok r.heap)
  unfolding merge_from
  merge_from_lem zero h l pre xs ys post k f = absurd (omega arith)
  merge_from_lem (suc fuel) h l pre [] ys post k f =
      let t : (first (ys ++ post) l.tail == first (ys ++ post) l.tail) ≡ true = ground arith in
      (record { heap = h; merged = ys; merges = none_left ys; is_list = k }, rw t refl)
  merge_from_lem (suc fuel) h l pre (x ∷ xs) [] post k f =
      let n = not_end h l pre x xs post k in
      let t : (first post l.tail == first post l.tail) ≡ true = ground arith in
      (
        record { heap = h; merged = x ∷ xs; merges = none_right (x ∷ xs); is_list = k },
        rw (n, t) refl,
      )
  merge_from_lem (suc fuel) h l pre (x ∷ xs) (y ∷ ys) post k f =
      let n = not_end h l pre x xs (y ∷ (ys ++ post)) k in
      let e = element h l pre x (xs ++ (y ∷ (ys ++ post))) k in
      let k2 : IsList h l ((pre ++ x ∷ xs) ++ y ∷ (ys ++ post)) =
        subst (λ (ns : List ℕ). IsList h l ns) (sym (append_assoc pre (x ∷ xs) (y ∷ (ys ++ post))))
          k in
      let n2 = not_end h l (pre ++ x ∷ xs) y ys post k2 in
      let e2 = element h l (pre ++ x ∷ xs) y (ys ++ post) k2 in
      elim (Bool-cases (less y x)) [
        | inl t ↦
            let (h', s, k') = list_splice_one h l pre x xs y (ys ++ post) k in
            let (r, q) =
              merge_from_lem fuel h' l (pre ++ y ∷ []) (x ∷ xs) ys post
                (move_on h' l pre y (x ∷ (xs ++ (ys ++ post))) k') (omega arith) in
            (
              record {
                heap = r.heap;
                merged = y ∷ r.merged;
                merges = take_right x y xs ys r.merged t r.merges;
                is_list = back_to r.heap l pre y (r.merged ++ post) r.is_list;
              },
              rw (n, n2, t, e2.next_is, e2.prev_is, s) q,
            )
        | inr t ↦
            let (r, q) =
              merge_from_lem fuel h l (pre ++ x ∷ []) xs (y ∷ ys) post
                (move_on h l pre x (xs ++ (y ∷ (ys ++ post))) k) (omega arith) in
            (
              record {
                heap = r.heap;
                merged = x ∷ r.merged;
                merges = take_left x y xs ys r.merged t r.merges;
                is_list = back_to r.heap l pre x (r.merged ++ post) r.is_list;
              },
              rw (n, n2, t, e.next_is) q,
            )
      ]

  -- `inplace_merge` of two runs of a list that are in order, next to each other and not empty: no
  -- ASSERT fails.
  pub inplace_merge_lem :
      (fuel : ℕ) (h : Links) (l : LinkedList) (pre xs ys post : List ℕ)
      → IsList h l (pre ++ (xs ++ (ys ++ post)))
      → length xs + length ys < fuel
      → ordered less xs ≡ true
      → ordered less ys ≡ true
      → (r : Merged h l pre xs ys post) × (inplace_merge less fuel h
            (first (xs ++ (ys ++ post)) l.tail)
            (first (ys ++ post) l.tail)
            (first post l.tail)
          ≡ ok r.heap)
  unfolding inplace_merge
  inplace_merge_lem fuel h l pre xs ys post k f o o' =
      let (r, q) = merge_from_lem fuel h l pre xs ys post k f in
      let k2 = subst (λ (ns : List ℕ). IsList h l ns) (sym (append_assoc pre xs (ys ++ post))) k in
      let k3 = subst (λ (ns : List ℕ). IsList h l ns) (sym (append_assoc (pre ++ xs) ys post)) k2 in
      let s = is_sorted_lem less fuel h l pre xs (ys ++ post) k (omega arith) ∙ ap ok o in
      let s' = is_sorted_lem less fuel h l (pre ++ xs) ys post k2 (omega arith) ∙ ap ok o' in
      (
        r,
        rw
            (
              end_not_null h l pre (xs ++ (ys ++ post)) k,
              end_not_null h l (pre ++ xs) (ys ++ post) k2,
              end_not_null h l ((pre ++ xs) ++ ys) post k3,
              s,
              s',
            )
            q,
      )

  ordered-cons :
      (x y : ℕ) (ys : List ℕ) → ordered less (x ∷ y ∷ ys) ≡ true → ordered less (y ∷ ys) ≡ true
  ordered-cons x y ys o = ground (arith, o)

  ordered-Merges_behind :
      (x : ℕ) (xs ys zs : List ℕ)
      → ((a b : ℕ) → less a b ≡ true → less b a ≡ false)
      → Merges xs ys zs
      → ordered less (x ∷ xs) ≡ true
      → ordered less (x ∷ ys) ≡ true
      → ordered less (x ∷ zs) ≡ true
  ordered-Merges_behind p xs ys zs w (none_left _) o o' = o'
  ordered-Merges_behind p xs ys zs w (none_right _) o o' = o
  ordered-Merges_behind p _ _ _ w (take_left x y xs ys zs t m) o o' =
      let rest =
        ordered-Merges_behind x xs (y ∷ ys) zs w m (ground (arith, o)) (ground (arith, t, o')) in
      ground (arith, o, rest)
  ordered-Merges_behind p _ _ _ w (take_right x y xs ys zs t m) o o' =
      let u = w y x t in
      let rest =
        ordered-Merges_behind y (x ∷ xs) ys zs w m (ground (arith, u, o)) (ground (arith, o')) in
      ground (arith, o', rest)

  -- What two lists in order merge to is in order.
  pub ordered-Merges :
      (xs ys zs : List ℕ)
      → ((a b : ℕ) → less a b ≡ true → less b a ≡ false)
      → Merges xs ys zs
      → ordered less xs ≡ true
      → ordered less ys ≡ true
      → ordered less zs ≡ true
  ordered-Merges xs ys zs w (none_left _) o o' = o'
  ordered-Merges xs ys zs w (none_right _) o o' = o
  ordered-Merges _ _ _ w (take_left x y xs ys zs t m) o o' =
      ordered-Merges_behind x xs (y ∷ ys) zs w m o (ground (arith, t, o'))
  ordered-Merges _ _ _ w (take_right x y xs ys zs t m) o o' =
      let u = w y x t in ordered-Merges_behind y (x ∷ xs) ys zs w m (ground (arith, u, o)) o'

  pub mem-Merges : (p : ℕ) (xs ys zs : List ℕ) → Merges xs ys zs → mem p zs ≡ (mem p xs || mem p ys)
  mem-Merges p xs ys zs (none_left _) = refl
  mem-Merges p xs ys zs (none_right _) = ground arith
  mem-Merges p _ _ _ (take_left x y xs ys zs t m) = ground (arith, mem-Merges p xs (y ∷ ys) zs m)
  mem-Merges p _ _ _ (take_right x y xs ys zs t m) = ground (arith, mem-Merges p (x ∷ xs) ys zs m)

  pub length-Merges : (xs ys zs : List ℕ) → Merges xs ys zs → length zs ≡ length xs + length ys
  length-Merges xs ys zs (none_left _) = omega arith
  length-Merges xs ys zs (none_right _) = omega arith
  length-Merges _ _ _ (take_left x y xs ys zs t m) =
      let e = length-Merges xs (y ∷ ys) zs m in omega arith
  length-Merges _ _ _ (take_right x y xs ys zs t m) =
      let e = length-Merges (x ∷ xs) ys zs m in omega arith
