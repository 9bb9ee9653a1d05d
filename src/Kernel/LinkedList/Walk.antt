-- ===== src/Kernel/LinkedList/Walk.antt =====
-- A walk over a list by list_next, and list_size.
use cs162_group13_clone.Base.{
  ℕ, zero, suc, ◌+◌, ◌<◌, ◌≡◌, refl, ap, ◌∙◌, true, false, List, [], ◌∷◌, ◌++◌, length, mem,
  distinct, ok, ◌==◌, arith,
}
use cs162_group13_clone.Kernel.LinkedList.{
  Links, LinkedList, list_next, list_begin, count_elems, list_size,
}
use cs162_group13_clone.Kernel.LinkedList.Nodes.{Linked, IsList, mem-append}
use cs162_group13_clone.Kernel.LinkedList.Update.{first}

-- What is left of a walk over a list: the elements from some place on.
pub record Walks (h : Links) (l : LinkedList) (a : ℕ) (xs : List ℕ) : Type 0 where
  pub linked : Linked h (a ∷ (xs ++ l.tail ∷ []))
  pub not_null : mem 0 (a ∷ (xs ++ l.tail ∷ [])) ≡ false
  pub no_tail : mem l.tail xs ≡ false

pub Walks-all : (h : Links) (l : LinkedList) (xs : List ℕ) → IsList h l xs → Walks h l l.head xs
Walks-all h l xs k = record {
  linked = k.linked;
  not_null = k.not_null;
  no_tail = distinct_tail xs (let a = k.apart in ground arith);
}
  where
    distinct_tail : (xs : List ℕ) → distinct (xs ++ l.tail ∷ []) ≡ true → mem l.tail xs ≡ false
    distinct_tail [] d = refl
    distinct_tail (x ∷ xs) d =
        ground (arith, mem-append x xs (l.tail ∷ []), distinct_tail xs (ground arith))

pub link_to_first :
    (h : Links) (l : LinkedList) (a : ℕ) (xs : List ℕ)
    → Linked h (a ∷ (xs ++ l.tail ∷ []))
    → h.next a ≡ first xs l.tail
link_to_first h l a [] k = k.0
link_to_first h l a (x ∷ xs) k = k.0

first_nonzero : (xs : List ℕ) (t : ℕ) → mem 0 (xs ++ t ∷ []) ≡ false → (first xs t == 0) ≡ false
first_nonzero [] t m = ground arith
first_nonzero (x ∷ xs) t m = ground arith

-- One step of the walk.
pub walk_next :
    (h : Links) (l : LinkedList) (a x : ℕ) (xs : List ℕ)
    → Walks h l a (x ∷ xs)
    → ((x == l.tail) ≡ false) × (list_next h x ≡ ok (first xs l.tail)) × Walks h l x xs
unfolding list_next
walk_next h l a x xs w =
    let n = w.not_null in
    let t = w.no_tail in
    let xz : (x == 0) ≡ false = ground arith in
    let az : (a == 0) ≡ false = ground arith in
    let nz = first_nonzero xs l.tail (ground arith) in
    let to = link_to_first h l x xs w.linked.2 in
    (
      ground arith,
      rw (w.linked.1, to, xz, az, nz) refl,
      record { linked = w.linked.2; not_null = ground arith; no_tail = ground arith },
    )

count_elems_lem :
    (fuel : ℕ) (h : Links) (l : LinkedList) (a : ℕ) (xs : List ℕ) (cnt : ℕ)
    → Walks h l a xs
    → length xs < fuel
    → count_elems fuel h l (first xs l.tail) cnt ≡ ok (cnt + length xs)
unfolding count_elems
count_elems_lem zero h l a xs cnt w f = absurd (omega arith)
count_elems_lem (suc fuel) h l a [] cnt w f =
    let t : (l.tail == l.tail) ≡ true = ground arith in
    let z : cnt ≡ cnt + 0 = omega arith in rw t (ap ok z)
count_elems_lem (suc fuel) h l a (x ∷ xs) cnt w f =
    let (n, e, w') = walk_next h l a x xs w in
    let z : cnt + 1 + length xs ≡ cnt + length (x ∷ xs) = omega arith in
    rw (n, e) (count_elems_lem fuel h l x xs (cnt + 1) w' (omega arith) ∙ ap ok z)

-- `list_size` of a list comes to an end, within one round more than the list has elements, and
-- returns their number.
pub list_size_lem :
    (fuel : ℕ) (h : Links) (l : LinkedList) (xs : List ℕ)
    → IsList h l xs
    → length xs < fuel
    → list_size fuel h l ≡ ok (length xs)
unfolding list_size list_begin
list_size_lem fuel h l xs k f =
    let z : (l.head == 0) ≡ false = let m = k.not_null in ground arith in
    rw (z, link_to_first h l l.head xs k.linked)
      (count_elems_lem fuel h l l.head xs 0 (Walks-all h l xs k) f ∙ ap ok (omega arith))
