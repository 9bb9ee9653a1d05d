-- ===== src/Kernel/LinkedList/Sorting.antt =====
-- pintos/src/lib/kernel/list.c, list_sort and the number of its passes.
use mathlib.Core.List.{append-nil}
use cs162_group13_clone.Base.{
  ℕ, zero, suc, ◌+◌, ◌≤◌, ◌<◌, ◌≡◌, refl, sym, ap, ◌∙◌, Bool, true, false, List, [], ◌∷◌, ◌++◌,
  length, ok, ◌==◌, arith, Bool-cases, inl, inr, ltb,
}
use cs162_group13_clone.Kernel.LinkedList.{Links, LinkedList, list_begin}
use cs162_group13_clone.Kernel.LinkedList.Nodes.{IsList}
use cs162_group13_clone.Kernel.LinkedList.Update.{first}
use cs162_group13_clone.Kernel.LinkedList.Walk.{link_to_first}
use cs162_group13_clone.Kernel.LinkedList.Sorted.{ordered}
use cs162_group13_clone.Kernel.LinkedList.Runs.{runs, is_sorted_lem}
use cs162_group13_clone.Kernel.LinkedList.Sort.{merge_passes, is_sorted, list_sort}
use cs162_group13_clone.Kernel.LinkedList.Passes.{
  SameElements, same-IsList, runs-ordered, merge_pass_lem,
}

module _ (less : ℕ → ℕ → Bool) where
  runs-length : (xs : List ℕ) → runs less xs ≤ length xs
  runs-length [] = omega arith
  runs-length (x ∷ []) = omega arith
  runs-length (x ∷ y ∷ ys) = let rest = runs-length (y ∷ ys) in ground (arith, rest)

  -- Sorted: one run, with the elements of xs.
  record IsResult (h : Links) (l : LinkedList) (xs ys : List ℕ) : Type 0 where
    is_list : IsList h l ys
    one : runs less ys ≤ 1
    same : SameElements ys xs

  merge_passes_lem :
      (passes fuel : ℕ) (h : Links) (l : LinkedList) (xs : List ℕ)
      → IsList h l xs
      → ((a b : ℕ) → less a b ≡ true → less b a ≡ false)
      → length xs < fuel
      → runs less xs < passes
      → (h' : Links) × (ys : List ℕ) × (merge_passes less passes fuel h l ≡ ok h')
        × IsResult h' l xs ys
  unfolding merge_passes list_begin
  merge_passes_lem zero fuel h l xs k w f g = absurd (omega arith)
  merge_passes_lem (suc passes) fuel h l xs k w f g =
      let z : (l.head == 0) ≡ false = let m = k.not_null in ground arith in
      let (r, q) = merge_pass_lem less fuel h l [] xs 0 k w f in
      let few = r.few in
      let half = r.halved in
      let sizes = r.same.sizes in
      let begins = link_to_first h l l.head xs k.linked in
      elim (Bool-cases (ltb 1 (0 + r.count))) [
        | inl t ↦
            let more : 1 < r.count = ground (arith, t) in
            let (h', ys, e, s) =
              merge_passes_lem passes fuel r.heap l r.result r.is_list w (omega arith)
                (omega arith) in
            (
              h',
              ys,
              rw (z, begins, q, t) e,
              record {
                is_list = s.is_list;
                one = s.one;
                same = record {
                  members = λ p. s.same.members p ∙ r.same.members p;
                  sizes = s.same.sizes ∙ sizes;
                };
              },
            )
        | inr t ↦
            let last : r.count ≤ 1 = ground (arith, t) in
            (
              r.heap,
              r.result,
              rw (z, begins, q, t) refl,
              record { is_list = r.is_list; one = omega arith; same = r.same },
            )
      ]

  -- `list_sort` of a list, with a comparison that never holds both ways, comes to an end, within one
  -- round more of each loop than the list has elements. No ASSERT fails, and the list is left with the
  -- same elements, as many as there were, in order.
  pub list_sort_lem :
      (fuel : ℕ) (h : Links) (l : LinkedList) (xs : List ℕ)
      → IsList h l xs
      → ((a b : ℕ) → less a b ≡ true → less b a ≡ false)
      → length xs < fuel
      → (h' : Links) × (ys : List ℕ) × (list_sort less fuel h l ≡ ok h')
        × IsList h' l ys
        × (ordered less ys ≡ true)
        × SameElements ys xs
  unfolding list_sort list_begin
  list_sort_lem fuel h l xs k w f =
      let z : (l.head == 0) ≡ false = let m = k.not_null in ground arith in
      let count = runs-length xs in
      let (h', ys, e, s) = merge_passes_lem fuel fuel h l xs k w f (omega arith) in
      let o = runs-ordered less ys s.one in
      let sizes = s.same.sizes in
      let k' = s.is_list in
      let all : IsList h' l (ys ++ []) = same-IsList h' l (sym (append-nil ys)) k' in
      let sorted =
        ap (λ (ns : List ℕ). is_sorted less fuel h' (first ns l.tail) l.tail) (sym (append-nil ys))
        ∙ is_sorted_lem less fuel h' l [] ys [] all (omega arith)
        ∙ ap ok o in
      (h', ys, rw (z, e, link_to_first h' l l.head ys k'.linked, sorted) refl, k', o, s.same)
