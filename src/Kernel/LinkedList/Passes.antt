-- ===== src/Kernel/LinkedList/Passes.antt =====
-- One pass of list_sort, which merges the runs in pairs.
use mathlib.Core.Path.{subst}
use mathlib.Core.List.{append_assoc, append-nil}
use cs162_group13_clone.Base.{
  ℕ, zero, suc, ◌+◌, ◌≤◌, ◌<◌, ◌≡◌, refl, sym, ap, ◌∙◌, Bool, true, false, ◌||◌, List, [], ◌∷◌,
  ◌++◌, mem, length, ok, ◌==◌, arith, Bool-cases, inl, inr,
}
use cs162_group13_clone.Kernel.LinkedList.{Links, LinkedList}
use cs162_group13_clone.Kernel.LinkedList.Nodes.{IsList, mem-append}
use cs162_group13_clone.Kernel.LinkedList.Update.{first}
use cs162_group13_clone.Kernel.LinkedList.Sorted.{ordered}
use cs162_group13_clone.Kernel.LinkedList.Runs.{not_end, descents, runs, find_end_of_run_lem}
use cs162_group13_clone.Kernel.LinkedList.Merge.{
  Merged, inplace_merge_lem, ordered-Merges, mem-Merges, length-Merges,
}
use cs162_group13_clone.Kernel.LinkedList.Sort.{merge_pass, find_end_of_run}

-- The same elements in some order, where no element is twice in either list.
pub record SameElements (xs ys : List ℕ) : Type 0 where
  pub members : (p : ℕ) → mem p xs ≡ mem p ys
  pub sizes : length xs ≡ length ys

length-append : (xs ys : List ℕ) → length (xs ++ ys) ≡ length xs + length ys
length-append [] ys = omega arith
length-append (x ∷ xs) ys = let e = length-append xs ys in omega arith

pub same-IsList :
    (h : Links) (l : LinkedList) {xs ys : List ℕ} → xs ≡ ys → IsList h l xs → IsList h l ys
same-IsList h l e k = subst (λ (ns : List ℕ). IsList h l ns) e k

module _ (less : ℕ → ℕ → Bool) where
  runs-append : (xs ys : List ℕ) → ordered less xs ≡ true → runs less (xs ++ ys) ≤ 1 + runs less ys
  runs-append [] ys o = omega arith
  runs-append (x ∷ []) [] o = ground arith
  runs-append (x ∷ []) (y ∷ ys) o = ground arith
  runs-append (x ∷ y ∷ xs) ys o =
      let rest = runs-append (y ∷ xs) ys (ground (arith, o)) in ground (arith, o, rest)

  pub runs-ordered : (xs : List ℕ) → runs less xs ≤ 1 → ordered less xs ≡ true
  runs-ordered [] n = refl
  runs-ordered (x ∷ []) n = refl
  runs-ordered (x ∷ y ∷ ys) n = elim (Bool-cases (less y x)) [
    | inl t ↦ absurd (ground (arith, n, t))
    | inr t ↦ let rest = runs-ordered (y ∷ ys) (ground (arith, n, t)) in ground (arith, t, rest)
  ]

  -- What a pass over xs leaves behind pre, and the runs that it counts.
  pub record Passed (h : Links) (l : LinkedList) (pre xs : List ℕ) : Type 0 where
    pub heap : Links
    pub result : List ℕ
    pub count : ℕ
    pub is_list : IsList heap l (pre ++ result)
    pub few : runs less result ≤ count
    pub halved : count + count ≤ runs less xs + 1
    pub same : SameElements result xs

  -- Two runs and what is behind them.
  record TwoRuns (x : ℕ) (xs run : List ℕ) (b : ℕ) (run2 rest : List ℕ) : Type 0 where
    split : x ∷ xs ≡ (x ∷ run) ++ ((b ∷ run2) ++ rest)
    ordered1 : ordered less (x ∷ run) ≡ true
    ordered2 : ordered less (b ∷ run2) ≡ true
    counts : runs less (x ∷ xs) ≡ 2 + runs less rest

  add_merged :
      (h h1 : Links) (l : LinkedList) (pre : List ℕ) (x : ℕ) (xs run : List ℕ) (b : ℕ)
      → (run2 rest : List ℕ) → TwoRuns x xs run b run2 rest
      → ((a b : ℕ) → less a b ≡ true → less b a ≡ false)
      → (m : Merged less h l pre (x ∷ run) (b ∷ run2) rest)
      → (r : Passed h1 l (pre ++ m.merged) rest)
      → (p : Passed h l pre (x ∷ xs)) × (p.heap ≡ r.heap) × (p.count ≡ 1 + r.count)
  add_merged h h1 l pre x xs run b run2 rest t w m r =
      let o = ordered-Merges less (x ∷ run) (b ∷ run2) m.merged w m.merges t.ordered1 t.ordered2 in
      let few = runs-append m.merged r.result o in
      let few' = r.few in
      let half = r.halved in
      let counts = t.counts in
      let len = length-Merges less (x ∷ run) (b ∷ run2) m.merged m.merges in
      let sizes = r.same.sizes in
      (
        record {
          heap = r.heap;
          result = m.merged ++ r.result;
          count = 1 + r.count;
          is_list =
              subst (λ (ns : List ℕ). IsList r.heap l ns) (append_assoc pre m.merged r.result)
                r.is_list;
          few = omega arith;
          halved = omega arith;
          same = record {
            members = λ p.
                mem-append p m.merged r.result
                ∙ rw (mem-Merges less p (x ∷ run) (b ∷ run2) m.merged m.merges, r.same.members p)
                    (mem_three p (x ∷ run) (b ∷ run2) rest ∙ ap (mem p) (sym t.split));
            sizes =
                length-append m.merged r.result
                ∙ rw (len, sizes)
                    (length_three (x ∷ run) (b ∷ run2) rest
                      ∙ ap (λ (ns : List ℕ). length ns) (sym t.split));
          };
        },
        refl,
        refl,
      )
    where
      mem_three :
          (p : ℕ) (xs ys zs : List ℕ)
          → ((mem p xs || mem p ys) || mem p zs) ≡ mem p (xs ++ (ys ++ zs))
      mem_three p xs ys zs = ground (arith, mem-append p xs (ys ++ zs), mem-append p ys zs)

      length_three :
          (xs ys zs : List ℕ) → length xs + length ys + length zs ≡ length (xs ++ (ys ++ zs))
      length_three xs ys zs =
          let e = length-append xs (ys ++ zs) in let e' = length-append ys zs in omega arith

  -- Where nothing is behind a run.
  bare : (pre : List ℕ) (x : ℕ) (xs : List ℕ) → pre ++ x ∷ xs ≡ pre ++ x ∷ (xs ++ [])
  bare pre x xs = ap (λ (ns : List ℕ). pre ++ x ∷ ns) (sym (append-nil xs))

  one_run :
      (h : Links) (l : LinkedList) (pre : List ℕ) (x : ℕ) (xs : List ℕ)
      → IsList h l (pre ++ x ∷ xs)
      → descents less (x ∷ xs) ≡ 0
      → (r : Passed h l pre (x ∷ xs)) × (r.heap ≡ h) × (r.count ≡ 1)
  one_run h l pre x xs k d = (
    record {
      heap = h;
      result = x ∷ xs;
      count = 1;
      is_list = k;
      few = omega arith;
      halved = omega arith;
      same = record { members = λ p. refl; sizes = refl };
    },
    refl,
    refl,
  )

  abbrev pub Pass : ℕ → Links → LinkedList → List ℕ → List ℕ → ℕ → Type 0
  Pass fuel h l pre xs cnt =
      (r : Passed h l pre xs) × (merge_pass less fuel h l (first xs l.tail) cnt
        ≡ ok (cnt + r.count, r.heap))

  after_run :
      (fuel : ℕ) (h : Links) (l : LinkedList) (pre : List ℕ) (x : ℕ) (xs : List ℕ) (cnt : ℕ)
      → IsList h l (pre ++ x ∷ xs)
      → ((a b : ℕ) → less a b ≡ true → less b a ≡ false)
      → length (x ∷ xs) < suc fuel
      → ((h' : Links) (pre' ys : List ℕ) (cnt' : ℕ)
          → IsList h' l (pre' ++ ys)
          → length ys < fuel
          → Pass fuel h' l pre' ys cnt')
      → (run rest : List ℕ) → xs ≡ run ++ rest
      → ordered less (x ∷ run) ≡ true
      → descents less (x ∷ xs) ≡ runs less rest
      → (x == l.tail) ≡ false
      → find_end_of_run less (suc fuel) h x l.tail ≡ ok (first rest l.tail)
      → Pass (suc fuel) h l pre (x ∷ xs) cnt
  unfolding merge_pass
  after_run fuel h l pre x xs cnt k w f next run [] s o d n q =
      let t : (l.tail == l.tail) ≡ true = ground arith in
      let (p, heap, count) = one_run h l pre x xs k d in (p, rw (n, q, t, heap, count) refl)
  after_run fuel h l pre x xs cnt k w f next run (b ∷ ys) s o d n q =
      let e : x ∷ xs ≡ (x ∷ run) ++ b ∷ ys = ap (λ (ns : List ℕ). x ∷ ns) s in
      let k2 : IsList h l ((pre ++ x ∷ run) ++ b ∷ (ys ++ [])) =
        same-IsList h l
          (ap (λ (ns : List ℕ). pre ++ ns) e
            ∙ sym (append_assoc pre (x ∷ run) (b ∷ ys))
            ∙ bare (pre ++ x ∷ run) b ys)
          k in
      let n2 = not_end h l (pre ++ x ∷ run) b ys [] k2 in
      let sizes = ap (λ (ns : List ℕ). length ns) s ∙ length-append run (b ∷ ys) in
      let (r2, q2) =
        find_end_of_run_lem less (suc fuel) h l (pre ++ x ∷ run) b ys [] k2 (omega arith) in
      let q2' = q2 ∙ ap (λ (ns : List ℕ). ok (first ns l.tail)) (append-nil r2.rest) in
      let sizes2 = ap (λ (ns : List ℕ). length ns) r2.split ∙ length-append r2.run r2.rest in
      let e2 : x ∷ xs ≡ (x ∷ run) ++ ((b ∷ r2.run) ++ r2.rest) =
        e ∙ ap (λ (ns : List ℕ). (x ∷ run) ++ b ∷ ns) r2.split in
      let counts = r2.ends_run in
      let (m, q3) =
        inplace_merge_lem less (suc fuel) h l pre (x ∷ run) (b ∷ r2.run) r2.rest
          (same-IsList h l (ap (λ (ns : List ℕ). pre ++ ns) e2) k) (omega arith) o r2.in_order in
      let (r, q4) =
        next m.heap (pre ++ m.merged) r2.rest (cnt + 1)
          (same-IsList m.heap l (sym (append_assoc pre m.merged r2.rest)) m.is_list)
          (omega arith) in
      let (p, heaps, adds) =
        add_merged h m.heap l pre x xs run b r2.run r2.rest
          (record { split = e2; ordered1 = o; ordered2 = r2.in_order; counts = omega arith }) w m
          r in
      let total : cnt + 1 + r.count ≡ cnt + p.count = omega arith in
      (p, rw (n, q, n2, q2', q3) (q4 ∙ rw (total, heaps) refl))

  pub merge_pass_lem :
      (fuel : ℕ) (h : Links) (l : LinkedList) (pre xs : List ℕ) (cnt : ℕ)
      → IsList h l (pre ++ xs)
      → ((a b : ℕ) → less a b ≡ true → less b a ≡ false)
      → length xs < fuel
      → Pass fuel h l pre xs cnt
  unfolding merge_pass
  merge_pass_lem zero h l pre xs cnt k w f = absurd (omega arith)
  merge_pass_lem (suc fuel) h l pre [] cnt k w f =
      let t : (l.tail == l.tail) ≡ true = ground arith in
      let z : cnt ≡ cnt + 0 = omega arith in
      (
        record {
          heap = h;
          result = [];
          count = 0;
          is_list = k;
          few = omega arith;
          halved = omega arith;
          same = record { members = λ p. refl; sizes = refl };
        },
        rw t (ap (λ (n : ℕ). ok (n, h)) z),
      )
  merge_pass_lem (suc fuel) h l pre (x ∷ xs) cnt k w f =
      let k1 = same-IsList h l (bare pre x xs) k in
      let n = not_end h l pre x xs [] k1 in
      let (r, q) = find_end_of_run_lem less (suc fuel) h l pre x xs [] k1 (omega arith) in
      after_run fuel h l pre x xs cnt k w f
        (λ h' pre' ys cnt' k' f'. merge_pass_lem fuel h' l pre' ys cnt' k' w f') r.run r.rest
        r.split r.in_order r.ends_run n
        (q ∙ ap (λ (ns : List ℕ). ok (first ns l.tail)) (append-nil r.rest))
