-- ===== src/Kernel/LinkedList/Order.antt =====
-- pintos/src/lib/kernel/list.c, the functions that compare elements: list_insert_ordered,
-- list_unique, list_max, list_min. `less` is the caller's function with its `aux`, which reads no
-- links.
use cs162_group13_clone.Base.{
  ℕ, zero, suc, ◌==◌, Bool, not, ◌&&◌, Option, none, some, Outcome, ok, panic, assert, ◌>>=◌, ◌>>◌,
  if◌then◌else◌,
}
use cs162_group13_clone.Kernel.LinkedList.{
  Links, LinkedList, assert_list, list_begin, list_next, list_insert, list_empty, list_remove,
  list_push_back,
}

module _ (less : ℕ → ℕ → Bool) where
  -- The loop of `list_insert_ordered`: the first element that the new one is less than, or the tail.
  unfoldable pub find_place : ℕ → Links → LinkedList → ℕ → ℕ → Outcome ℕ
  find_place zero h l elem e = panic
  find_place (suc fuel) h l elem e =
      if e == l.tail
      then ok e
      else if less elem e
      then ok e
      else (do e' ← list_next h e; find_place fuel h l elem e')

  unfoldable pub list_insert_ordered : ℕ → Links → LinkedList → ℕ → Outcome Links
  list_insert_ordered fuel h l elem = do
    assert_list l
    assert (not (elem == 0))
    start ← list_begin h l
    e ← find_place fuel h l elem start
    list_insert h e elem

  -- The duplicate goes to the other list, if there is one.
  abbrev pub keep_duplicate : Links → Option LinkedList → ℕ → Outcome Links
  keep_duplicate h none next = ok h
  keep_duplicate h (some duplicates) next = list_push_back h duplicates next

  -- The loop of `list_unique`.
  unfoldable pub drop_duplicates : ℕ → Links → LinkedList → Option LinkedList → ℕ → Outcome Links
  drop_duplicates zero h l duplicates elem = panic
  drop_duplicates (suc fuel) h l duplicates elem = do
    next ← list_next h elem
    if next == l.tail
        then ok h
        else if not (less elem next) && not (less next elem)
        then (do
          (followed, h1) ← list_remove h next
          h2 ← keep_duplicate h1 duplicates next
          drop_duplicates fuel h2 l duplicates elem)
        else drop_duplicates fuel h l duplicates next

  unfoldable pub list_unique : ℕ → Links → LinkedList → Option LinkedList → Outcome Links
  list_unique fuel h l duplicates = do
    assert_list l
    empty ← list_empty h l
    if empty then ok h else (do elem ← list_begin h l; drop_duplicates fuel h l duplicates elem)

  -- The loop of `list_max`, and with the arguments of `less` swapped that of `list_min`.
  unfoldable pub best_from : ℕ → Links → LinkedList → ℕ → ℕ → Outcome ℕ
  best_from zero h l best e = panic
  best_from (suc fuel) h l best e =
      if e == l.tail
      then ok best
      else (do e' ← list_next h e; best_from fuel h l (if less best e then e else best) e')

  unfoldable pub list_max : ℕ → Links → LinkedList → Outcome ℕ
  list_max fuel h l = do
    max ← list_begin h l
    if max == l.tail then ok max else (do e ← list_next h max; best_from fuel h l max e)

unfoldable pub list_min : (ℕ → ℕ → Bool) → ℕ → Links → LinkedList → Outcome ℕ
list_min less fuel h l = do
  min ← list_begin h l
  if min == l.tail
      then ok min
      else (do e ← list_next h min; best_from (λ a b. less b a) fuel h l min e)
