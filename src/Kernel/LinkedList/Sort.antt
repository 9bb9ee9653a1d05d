-- ===== src/Kernel/LinkedList/Sort.antt =====
-- pintos/src/lib/kernel/list.c, list_sort and its helpers: a natural merge sort that moves runs by
-- list_splice.
use cs162_group13_clone.Base.{
  ℕ, zero, suc, ◌+◌, ◌==◌, Bool, true, false, not, ◌||◌, Outcome, ok, panic, assert, ◌>>=◌, ◌>>◌,
  ltb, if◌then◌else◌,
}
use cs162_group13_clone.Kernel.LinkedList.{
  Links, LinkedList, assert_list, list_begin, list_next, list_prev, list_splice,
}

module _ (less : ℕ → ℕ → Bool) where
  -- The loop of `is_sorted`, from an element that is not b.
  unfoldable pub sorted_from : ℕ → Links → ℕ → ℕ → Outcome Bool
  sorted_from zero h a b = panic
  sorted_from (suc fuel) h a b = do
    a' ← list_next h a
    if a' == b
        then ok true
        else (do p ← list_prev h a'; if less a' p then ok false else sorted_from fuel h a' b)

  unfoldable pub is_sorted : ℕ → Links → ℕ → ℕ → Outcome Bool
  is_sorted fuel h a b = if a == b then ok true else sorted_from fuel h a b

  -- The loop of `find_end_of_run`.
  unfoldable pub run_from : ℕ → Links → ℕ → ℕ → Outcome ℕ
  run_from zero h a b = panic
  run_from (suc fuel) h a b = do
    a' ← list_next h a
    if a' == b
        then ok a'
        else (do p ← list_prev h a'; if less a' p then ok a' else run_from fuel h a' b)

  unfoldable pub find_end_of_run : ℕ → Links → ℕ → ℕ → Outcome ℕ
  find_end_of_run fuel h a b = do
    assert (not (a == 0))
    assert (not (b == 0))
    assert (not (a == b))
    run_from fuel h a b

  -- The loop of `inplace_merge`.
  unfoldable pub merge_from : ℕ → Links → ℕ → ℕ → ℕ → Outcome Links
  merge_from zero h a0 a1b0 b1 = panic
  merge_from (suc fuel) h a0 a1b0 b1 =
      if a0 == a1b0 || a1b0 == b1
      then ok h
      else if not (less a1b0 a0)
      then (do a0' ← list_next h a0; merge_from fuel h a0' a1b0 b1)
      else (do
        next ← list_next h a1b0
        moved ← list_prev h next
        h' ← list_splice h a0 moved next
        merge_from fuel h' a0 next b1)

  unfoldable pub inplace_merge : ℕ → Links → ℕ → ℕ → ℕ → Outcome Links
  inplace_merge fuel h a0 a1b0 b1 = do
    assert (not (a0 == 0))
    assert (not (a1b0 == 0))
    assert (not (b1 == 0))
    first ← is_sorted fuel h a0 a1b0
    assert first
    second ← is_sorted fuel h a1b0 b1
    assert second
    merge_from fuel h a0 a1b0 b1

  -- One pass over the list from a0 on, with the number of runs put out.
  unfoldable pub merge_pass : ℕ → Links → LinkedList → ℕ → ℕ → Outcome (ℕ × Links)
  merge_pass zero h l a0 output_run_cnt = panic
  merge_pass (suc fuel) h l a0 output_run_cnt = if a0 == l.tail then ok (output_run_cnt, h) else (do
    a1b0 ← find_end_of_run (suc fuel) h a0 l.tail
    if a1b0 == l.tail then ok (output_run_cnt + 1, h) else (do
      b1 ← find_end_of_run (suc fuel) h a1b0 l.tail
      h' ← inplace_merge (suc fuel) h a0 a1b0 b1
      merge_pass fuel h' l b1 (output_run_cnt + 1)))

  -- `do … while (output_run_cnt > 1)`
  unfoldable pub merge_passes : ℕ → ℕ → Links → LinkedList → Outcome Links
  merge_passes zero fuel h l = panic
  merge_passes (suc passes) fuel h l = do
    start ← list_begin h l
    (output_run_cnt, h') ← merge_pass fuel h l start 0
    if ltb 1 output_run_cnt then merge_passes passes fuel h' l else ok h'

  unfoldable pub list_sort : ℕ → Links → LinkedList → Outcome Links
  list_sort fuel h l = do
    assert_list l
    h' ← merge_passes fuel fuel h l
    start ← list_begin h' l
    sorted ← is_sorted fuel h' start l.tail
    assert sorted
    ok h'
