-- ===== src/Kernel/LinkedList/Tests.antt =====
-- A list with the elements 3, 5 and 7, between a head at 10 and a tail at 11.
use cs162_group13_clone.Base.{
  ◌⊎◌, ℕ, zero, suc, ◌≡◌, refl, true, false, List, [], ◌∷◌, ◌++◌, ok, panic, ltb, ◌==◌,
  if◌then◌else◌, arith, Outcome, none,
}
use cs162_group13_clone.Kernel.LinkedList.{
  Links, LinkedList, list_insert, list_remove, list_reverse, list_begin, list_next, list_splice,
  list_prev, list_empty, list_end,
}
use cs162_group13_clone.Kernel.LinkedList.Nodes.{nodes, IsList}
use cs162_group13_clone.Kernel.LinkedList.Update.{first}
use cs162_group13_clone.Kernel.LinkedList.Insert.{Untouched, list_insert_lem}
use cs162_group13_clone.Kernel.LinkedList.Remove.{list_remove_lem}
use cs162_group13_clone.Kernel.LinkedList.Mirror.{reverse}
use cs162_group13_clone.Kernel.LinkedList.Reverse.{list_reverse_lem}
use cs162_group13_clone.Kernel.LinkedList.Order.{
  list_insert_ordered, list_max, best_from, list_min, list_unique, drop_duplicates,
}
use cs162_group13_clone.Kernel.LinkedList.Sorted.{
  ordered, insert_sorted, Clash, list_insert_ordered_lem,
}
use cs162_group13_clone.Kernel.LinkedList.Extremes.{IsOrder, IsGreatest, list_max_lem}
use cs162_group13_clone.Kernel.LinkedList.Passes.{SameElements}
use cs162_group13_clone.Kernel.LinkedList.Sorting.{list_sort_lem}
use cs162_group13_clone.Kernel.LinkedList.Sort.{
  list_sort, merge_passes, merge_pass, find_end_of_run, run_from, inplace_merge, merge_from,
  is_sorted, sorted_from,
}

-- The links of a list with the elements p, q and r.
abbrev links : ℕ → ℕ → ℕ → Links
links p q r = record {
  prev = λ n.
      if n == p then 10 else if n == q then p else if n == r then q else if n == 11 then r else 0;
  next = λ n.
      if n == 10 then p else if n == p then q else if n == q then r else if n == r then 11 else 0;
}

abbrev heap : Links
heap = links 3 5 7

abbrev list : LinkedList
list = record { head = 10; tail = 11 }

heap-IsList : IsList heap list (3 ∷ 5 ∷ 7 ∷ [])
heap-IsList = record {
  linked = (refl, refl, (refl, refl, (refl, refl, (refl, refl, tt))));
  no_prev = refl;
  no_next = refl;
  apart = refl;
  not_null = refl;
}

list_insert_lem_example :
    (h' : Links) × (list_insert heap (first (5 ∷ 7 ∷ []) list.tail) 4 ≡ ok h')
    × IsList h' list ((3 ∷ []) ++ 4 ∷ 5 ∷ 7 ∷ [])
    × Untouched heap h' (nodes list ((3 ∷ []) ++ 4 ∷ 5 ∷ 7 ∷ []))
list_insert_lem_example =
    list_insert_lem heap list (3 ∷ []) (5 ∷ 7 ∷ []) 4 heap-IsList refl (ground arith)

list_remove_lem_example :
    (h' : Links) × (list_remove heap 5 ≡ ok (first (7 ∷ []) list.tail, h'))
    × IsList h' list ((3 ∷ []) ++ 7 ∷ [])
    × Untouched heap h' (nodes list ((3 ∷ []) ++ 7 ∷ []))
list_remove_lem_example = list_remove_lem heap list (3 ∷ []) 5 (7 ∷ []) heap-IsList

list_reverse_lem_example :
    (h' : Links) × (list_reverse 4 heap list ≡ ok h') × IsList h' list (reverse (3 ∷ 5 ∷ 7 ∷ []))
list_reverse_lem_example = list_reverse_lem 4 heap list (3 ∷ 5 ∷ 7 ∷ []) heap-IsList (ground arith)

list_insert_ordered_lem_example :
    (h' : Links) × (list_insert_ordered ltb 4 heap list 6 ≡ ok h')
    × IsList h' list (insert_sorted ltb 6 (3 ∷ 5 ∷ 7 ∷ []))
    × ((ordered ltb (3 ∷ 5 ∷ 7 ∷ []) ≡ false)
        ⊎ (Clash ltb 6 (3 ∷ 5 ∷ 7 ∷ [])
            ⊎ (ordered ltb (insert_sorted ltb 6 (3 ∷ 5 ∷ 7 ∷ [])) ≡ true)))
list_insert_ordered_lem_example =
    list_insert_ordered_lem ltb 4 heap list (3 ∷ 5 ∷ 7 ∷ []) 6 heap-IsList refl (ground arith)
      (ground arith)

-- What a walk from e reads.
abbrev elems_from : ℕ → Links → ℕ → List ℕ
elems_from zero h e = []
elems_from (suc n) h e = e ∷ elems_from n h (h.next e)

abbrev elems : ℕ → Outcome Links → List ℕ
elems n panic = []
elems n (ok h) = elems_from n h (h.next 10)

-- The list 7, 3, 5 in order.
sort_three : elems 4 (list_sort ltb 5 (links 7 3 5) list) ≡ 3 ∷ 5 ∷ 7 ∷ 11 ∷ []
unfolding list_sort merge_passes merge_pass find_end_of_run run_from inplace_merge merge_from
    is_sorted sorted_from list_begin list_next list_prev list_splice
sort_three = refl

max_of_three : list_max ltb 5 (links 3 7 5) list ≡ ok 7
unfolding list_max best_from list_begin list_next
max_of_three = refl

min_of_three : list_min ltb 5 (links 5 3 7) list ≡ ok 3
unfolding list_min best_from list_begin list_next
min_of_three = refl

-- With all elements equal, one is left.
unique_of_three : elems 2 (list_unique (λ a b. false) 5 heap list none) ≡ 3 ∷ 11 ∷ []
unfolding list_unique drop_duplicates list_begin list_next list_empty list_end list_remove
unique_of_three = refl

ltb-IsOrder : IsOrder ltb
ltb-IsOrder = record { one_way = λ a b t. ground arith; not_less = λ a b c p q. ground arith }

list_max_lem_example :
    ((m : ℕ) × (list_max ltb 3 heap list ≡ ok m) × IsGreatest ltb m (3 ∷ 5 ∷ 7 ∷ []))
    × ((m : ℕ) × (list_min ltb 3 heap list ≡ ok m) × IsGreatest (λ a b. ltb b a) m (3 ∷ 5 ∷ 7 ∷ []))
list_max_lem_example =
    list_max_lem ltb 3 heap list 3 (5 ∷ 7 ∷ []) ltb-IsOrder heap-IsList (ground arith)

unordered-IsList : IsList (links 7 3 5) list (7 ∷ 3 ∷ 5 ∷ [])
unordered-IsList = record {
  linked = (refl, refl, (refl, refl, (refl, refl, (refl, refl, tt))));
  no_prev = refl;
  no_next = refl;
  apart = refl;
  not_null = refl;
}

list_sort_lem_example :
    (h' : Links) × (ys : List ℕ) × (list_sort ltb 4 (links 7 3 5) list ≡ ok h')
    × IsList h' list ys
    × (ordered ltb ys ≡ true)
    × SameElements ys (7 ∷ 3 ∷ 5 ∷ [])
list_sort_lem_example =
    list_sort_lem ltb 4 (links 7 3 5) list (7 ∷ 3 ∷ 5 ∷ []) unordered-IsList ltb-IsOrder.one_way
      (ground arith)
