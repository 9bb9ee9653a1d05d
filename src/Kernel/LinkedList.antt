-- ===== src/Kernel/LinkedList.antt =====
-- pintos/src/lib/kernel/list.c: doubly linked lists between a head and a tail, on a heap of links. An
-- element is its address, and 0 the null pointer; `list` is not null if its first member, the head,
-- is not. A loop recurs on `fuel`; `panic` stands for a failed ASSERT and for fuel that has run out.
pub mod Nodes
pub mod Update
pub mod Insert
pub mod Remove
pub mod Walk
pub mod Flip
pub mod Mirror
pub mod Reverse
pub mod Order
pub mod Sorted
pub mod Splice
pub mod Runs
pub mod Merge
pub mod Passes
pub mod Sorting
pub mod Extremes
pub mod Sort
mod Tests
use cs162_group13_clone.Base.{
  ℕ, zero, suc, ◌+◌, ◌==◌, Bool, true, false, not, ◌&&◌, ◌||◌, Outcome, ok, panic, assert, ◌>>=◌,
  ◌>>◌, if◌then◌else◌,
}
use cs162_group13_clone.Devices.Block.{update}

-- The members of every `struct list_elem`.
pub record Links : Type 0 where
  pub prev : ℕ → ℕ
  pub next : ℕ → ℕ

-- Where the head and the tail of a list lie.
pub record LinkedList : Type 0 where
  pub head : ℕ
  pub tail : ℕ

abbrev pub set_next : ℕ → ℕ → Links → Links
set_next p v h = record h { next = update h.next p v }

abbrev pub set_prev : ℕ → ℕ → Links → Links
set_prev p v h = record h { prev = update h.prev p v }

abbrev pub is_head : Links → ℕ → Bool
is_head h elem = not (elem == 0) && (h.prev elem == 0 && not (h.next elem == 0))

abbrev pub is_interior : Links → ℕ → Bool
is_interior h elem = not (elem == 0) && (not (h.prev elem == 0) && not (h.next elem == 0))

abbrev pub is_tail : Links → ℕ → Bool
is_tail h elem = not (elem == 0) && (not (h.prev elem == 0) && h.next elem == 0)

abbrev pub assert_list : LinkedList → Outcome (Unit {0})
assert_list l = assert (not (l.head == 0))

unfoldable pub list_init : Links → LinkedList → Outcome Links
list_init h l = do
  assert_list l
  ok (set_next l.tail 0 (set_prev l.tail l.head (set_next l.head l.tail (set_prev l.head 0 h))))

unfoldable pub list_begin : Links → LinkedList → Outcome ℕ
list_begin h l = do assert_list l; ok (h.next l.head)

unfoldable pub list_next : Links → ℕ → Outcome ℕ
list_next h elem = do assert (is_head h elem || is_interior h elem); ok (h.next elem)

unfoldable pub list_end : LinkedList → Outcome ℕ
list_end l = do assert_list l; ok l.tail

unfoldable pub list_rbegin : Links → LinkedList → Outcome ℕ
list_rbegin h l = do assert_list l; ok (h.prev l.tail)

unfoldable pub list_prev : Links → ℕ → Outcome ℕ
list_prev h elem = do assert (is_interior h elem || is_tail h elem); ok (h.prev elem)

unfoldable pub list_rend : LinkedList → Outcome ℕ
list_rend l = do assert_list l; ok l.head

unfoldable pub list_head : LinkedList → Outcome ℕ
list_head l = do assert_list l; ok l.head

unfoldable pub list_tail : LinkedList → Outcome ℕ
list_tail l = do assert_list l; ok l.tail

-- The four assignments, in their order.
abbrev pub insert_links : Links → ℕ → ℕ → Links
insert_links h before elem =
    let h1 = set_prev elem (h.prev before) h in
    let h2 = set_next elem before h1 in
    let h3 = set_next (h2.prev before) elem h2 in set_prev before elem h3

unfoldable pub list_insert : Links → ℕ → ℕ → Outcome Links
list_insert h before elem = do
  assert (is_interior h before || is_tail h before)
  assert (not (elem == 0))
  ok (insert_links h before elem)

abbrev pub splice_links : Links → ℕ → ℕ → ℕ → Links
splice_links h before first last =
    let h1 = set_next (h.prev first) (h.next last) h in
    let h2 = set_prev (h1.next last) (h1.prev first) h1 in
    let h3 = set_prev first (h2.prev before) h2 in
    let h4 = set_next last before h3 in
    let h5 = set_next (h4.prev before) first h4 in set_prev before last h5

unfoldable pub list_splice : Links → ℕ → ℕ → ℕ → Outcome Links
list_splice h before first last = do
  assert (is_interior h before || is_tail h before)
  if first == last then ok h else (do
    last' ← list_prev h last
    assert (is_interior h first)
    assert (is_interior h last')
    ok (splice_links h before first last'))

unfoldable pub list_push_front : Links → LinkedList → ℕ → Outcome Links
list_push_front h l elem = do before ← list_begin h l; list_insert h before elem

unfoldable pub list_push_back : Links → LinkedList → ℕ → Outcome Links
list_push_back h l elem = do before ← list_end l; list_insert h before elem

abbrev pub remove_links : Links → ℕ → Links
remove_links h elem =
    let h1 = set_next (h.prev elem) (h.next elem) h in set_prev (h1.next elem) (h1.prev elem) h1

-- The element that followed, and the heap.
unfoldable pub list_remove : Links → ℕ → Outcome (ℕ × Links)
list_remove h elem = do
  assert (is_interior h elem)
  let h' = remove_links h elem
  ok (h'.next elem, h')

unfoldable pub list_empty : Links → LinkedList → Outcome Bool
list_empty h l = do b ← list_begin h l; e ← list_end l; ok (b == e)

unfoldable pub list_front : Links → LinkedList → Outcome ℕ
list_front h l = do empty ← list_empty h l; assert (not empty); ok (h.next l.head)

unfoldable pub list_back : Links → LinkedList → Outcome ℕ
list_back h l = do empty ← list_empty h l; assert (not empty); ok (h.prev l.tail)

unfoldable pub list_pop_front : Links → LinkedList → Outcome (ℕ × Links)
list_pop_front h l = do front ← list_front h l; (next, h') ← list_remove h front; ok (front, h')

unfoldable pub list_pop_back : Links → LinkedList → Outcome (ℕ × Links)
list_pop_back h l = do back ← list_back h l; (next, h') ← list_remove h back; ok (back, h')

-- The loop of `list_size`.
unfoldable pub count_elems : ℕ → Links → LinkedList → ℕ → ℕ → Outcome ℕ
count_elems zero h l e cnt = panic
count_elems (suc fuel) h l e cnt =
    if e == l.tail then ok cnt else (do e' ← list_next h e; count_elems fuel h l e' (cnt + 1))

unfoldable pub list_size : ℕ → Links → LinkedList → Outcome ℕ
list_size fuel h l = do e ← list_begin h l; count_elems fuel h l e 0

-- `swap (&e->prev, &e->next)`
abbrev pub flip : Links → ℕ → Links
flip h e = let h1 = set_prev e (h.next e) h in set_next e (h.prev e) h1

-- The loop of `list_reverse`: after the swap, `e->prev` is what followed e.
unfoldable pub flip_elems : ℕ → Links → LinkedList → ℕ → Outcome Links
flip_elems zero h l e = panic
flip_elems (suc fuel) h l e =
    if e == l.tail then ok h else flip_elems fuel (flip h e) l ((flip h e).prev e)

-- The two swaps behind the loop.
abbrev pub swap_ends : Links → LinkedList → Links
swap_ends h l =
    let first = h.next l.head in
    let h1 = set_next l.head (h.prev l.tail) h in
    let h2 = set_prev l.tail first h1 in
    let a = h2.next l.head in
    let b = h2.prev l.tail in
    let t = h2.prev a in let h3 = set_prev a (h2.next b) h2 in set_next b t h3

unfoldable pub list_reverse : ℕ → Links → LinkedList → Outcome Links
list_reverse fuel h l = do
  empty ← list_empty h l
  if empty then ok h else (do e ← list_begin h l; h' ← flip_elems fuel h l e; ok (swap_ends h' l))
