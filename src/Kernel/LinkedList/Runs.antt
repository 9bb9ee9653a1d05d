-- ===== src/Kernel/LinkedList/Runs.antt =====
-- The runs that list_sort finds: is_sorted and find_end_of_run, and how many runs a list has.
use mathlib.Core.Path.{subst}
use mathlib.Core.List.{append_assoc}
use cs162_group13_clone.Base.{
  ℕ, zero, suc, ◌+◌, ◌<◌, ◌≡◌, refl, sym, ap, Bool, true, false, List, [], ◌∷◌, ◌++◌, mem, distinct,
  length, ok, ◌==◌, if◌then◌else◌, arith, Bool-cases, inl, inr,
}
use cs162_group13_clone.Kernel.LinkedList.{Links, LinkedList}
use cs162_group13_clone.Kernel.LinkedList.Nodes.{IsList, apart_ne, distinct_right}
use cs162_group13_clone.Kernel.LinkedList.Update.{first}
use cs162_group13_clone.Kernel.LinkedList.Splice.{element}
use cs162_group13_clone.Kernel.LinkedList.Sorted.{ordered}
use cs162_group13_clone.Kernel.LinkedList.Sort.{sorted_from, is_sorted, run_from, find_end_of_run}

first_in : (xs post : List ℕ) (t : ℕ) → mem (first post t) ((xs ++ post) ++ t ∷ []) ≡ true
first_in [] [] t = ground arith
first_in [] (p ∷ post) t = ground arith
first_in (x ∷ xs) post t = ground (arith, first_in xs post t)

-- An element is not the end of a run that it is in.
pub not_end :
    (h : Links) (l : LinkedList) (pre : List ℕ) (x : ℕ) (xs post : List ℕ)
    → IsList h l (pre ++ x ∷ (xs ++ post))
    → (x == first post l.tail) ≡ false
not_end h l pre x xs post k =
    let d : distinct (pre ++ x ∷ ((xs ++ post) ++ l.tail ∷ [])) ≡ true =
      subst (λ (ns : List ℕ). distinct ns ≡ true)
        (append_assoc pre (x ∷ (xs ++ post)) (l.tail ∷ []))
        (distinct_right (l.head ∷ []) ((pre ++ x ∷ (xs ++ post)) ++ l.tail ∷ []) k.apart) in
    let n = distinct_right pre (x ∷ ((xs ++ post) ++ l.tail ∷ [])) d in
    let m =
      apart_ne (first post l.tail) x ((xs ++ post) ++ l.tail ∷ []) (first_in xs post l.tail)
        (ground arith) in
    ground arith

-- The same list, with one element more in what lies before.
pub move_on :
    (h : Links) (l : LinkedList) (pre : List ℕ) (x : ℕ) (xs : List ℕ)
    → IsList h l (pre ++ x ∷ xs)
    → IsList h l ((pre ++ x ∷ []) ++ xs)
move_on h l pre x xs k =
    subst (λ (ns : List ℕ). IsList h l ns) (sym (append_assoc pre (x ∷ []) xs)) k

-- Nor is the end of a run null.
pub end_not_null :
    (h : Links) (l : LinkedList) (xs post : List ℕ)
    → IsList h l (xs ++ post)
    → (first post l.tail == 0) ≡ false
end_not_null h l xs post k =
    let z = k.not_null in
    let m =
      apart_ne (first post l.tail) 0 ((xs ++ post) ++ l.tail ∷ []) (first_in xs post l.tail)
        (ground arith) in
    m

module _ (less : ℕ → ℕ → Bool) where
  -- How often an element is less than the one before it: one less than there are runs.
  abbrev pub descents : List ℕ → ℕ
  descents [] = 0
  descents (x ∷ []) = 0
  descents (x ∷ y ∷ ys) = let rest = descents (y ∷ ys) in if less y x then 1 + rest else rest

  sorted_from_lem :
      (fuel : ℕ) (h : Links) (l : LinkedList) (pre : List ℕ) (a : ℕ) (xs post : List ℕ)
      → IsList h l (pre ++ a ∷ (xs ++ post))
      → length xs < fuel
      → sorted_from less fuel h a (first post l.tail) ≡ ok (ordered less (a ∷ xs))
  unfolding sorted_from
  sorted_from_lem zero h l pre a xs post k f = absurd (omega arith)
  sorted_from_lem (suc fuel) h l pre a [] post k f =
      let e = element h l pre a post k in
      let t : (first post l.tail == first post l.tail) ≡ true = ground arith in
      rw (e.next_is, t) refl
  sorted_from_lem (suc fuel) h l pre a (x ∷ xs) post k f =
      let e = element h l pre a (x ∷ (xs ++ post)) k in
      let k' = move_on h l pre a (x ∷ (xs ++ post)) k in
      let n = not_end h l (pre ++ a ∷ []) x xs post k' in
      let rest = sorted_from_lem fuel h l (pre ++ a ∷ []) x xs post k' (omega arith) in
      elim (Bool-cases (less x a)) [
        | inl t ↦ rw (e.next_is, n, e.prev_is, t) refl
        | inr t ↦ rw (e.next_is, n, e.prev_is, t) rest
      ]

  -- `is_sorted` of a run of a list tells whether it is in order.
  pub is_sorted_lem :
      (fuel : ℕ) (h : Links) (l : LinkedList) (pre xs post : List ℕ)
      → IsList h l (pre ++ (xs ++ post))
      → length xs < fuel
      → is_sorted less fuel h (first (xs ++ post) l.tail) (first post l.tail) ≡ ok (ordered less xs)
  unfolding is_sorted
  is_sorted_lem fuel h l pre [] post k f =
      let t : (first post l.tail == first post l.tail) ≡ true = ground arith in rw t refl
  is_sorted_lem fuel h l pre (a ∷ xs) post k f =
      let n = not_end h l pre a xs post k in
      rw n (sorted_from_lem fuel h l pre a xs post k (omega arith))

  abbrev pub runs : List ℕ → ℕ
  runs [] = 0
  runs (x ∷ xs) = 1 + descents (x ∷ xs)

  -- The run that a list starts with: in order, and as long as it can be.
  pub record Run (fuel : ℕ) (h : Links) (l : LinkedList) (a : ℕ) (xs post : List ℕ) : Type 0 where
    pub run : List ℕ
    pub rest : List ℕ
    pub split : xs ≡ run ++ rest
    pub in_order : ordered less (a ∷ run) ≡ true
    pub ends_run : descents (a ∷ xs) ≡ runs rest
    pub found : run_from less fuel h a (first post l.tail) ≡ ok (first (rest ++ post) l.tail)

  run_from_lem :
      (fuel : ℕ) (h : Links) (l : LinkedList) (pre : List ℕ) (a : ℕ) (xs post : List ℕ)
      → IsList h l (pre ++ a ∷ (xs ++ post))
      → length xs < fuel
      → Run fuel h l a xs post
  unfolding run_from
  run_from_lem zero h l pre a xs post k f = absurd (omega arith)
  run_from_lem (suc fuel) h l pre a [] post k f =
      let e = element h l pre a post k in
      let t : (first post l.tail == first post l.tail) ≡ true = ground arith in
      record {
        run = [];
        rest = [];
        split = refl;
        in_order = refl;
        ends_run = refl;
        found = rw (e.next_is, t) refl;
      }
  run_from_lem (suc fuel) h l pre a (x ∷ xs) post k f =
      let e = element h l pre a (x ∷ (xs ++ post)) k in
      let k' = move_on h l pre a (x ∷ (xs ++ post)) k in
      let n = not_end h l (pre ++ a ∷ []) x xs post k' in
      let r = run_from_lem fuel h l (pre ++ a ∷ []) x xs post k' (omega arith) in
      elim (Bool-cases (less x a)) [
        | inl t ↦ record {
          run = [];
          rest = x ∷ xs;
          split = refl;
          in_order = refl;
          ends_run = rw t refl;
          found = rw (e.next_is, n, e.prev_is, t) refl;
        }
        | inr t ↦ record {
          run = x ∷ r.run;
          rest = r.rest;
          split = ap (λ (ys : List ℕ). x ∷ ys) r.split;
          in_order = rw t r.in_order;
          ends_run = rw t r.ends_run;
          found = rw (e.next_is, n, e.prev_is, t) r.found;
        }
      ]

  pub find_end_of_run_lem :
      (fuel : ℕ) (h : Links) (l : LinkedList) (pre : List ℕ) (a : ℕ) (xs post : List ℕ)
      → IsList h l (pre ++ a ∷ (xs ++ post))
      → length xs < fuel
      → (r : Run fuel h l a xs post) × (find_end_of_run less fuel h a (first post l.tail)
          ≡ ok (first (r.rest ++ post) l.tail))
  unfolding find_end_of_run
  find_end_of_run_lem fuel h l pre a xs post k f =
      let r = run_from_lem fuel h l pre a xs post k f in
      let az = (element h l pre a (xs ++ post) k).not_null in
      let bz =
        end_not_null h l (pre ++ a ∷ xs) post
          (subst (λ (ns : List ℕ). IsList h l ns) (sym (append_assoc pre (a ∷ xs) post)) k) in
      let n = not_end h l pre a xs post k in (r, rw (az, bz, n) r.found)
