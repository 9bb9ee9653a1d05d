-- ===== src/Threads/Scheduler.antt =====
-- pintos/src/threads/thread.c on one CPU: the ready list, the running thread, and the functions
-- that change them. A thread is named by its pointer; the members of `struct thread` are maps from
-- threads. Interrupts are off wherever the code turns them off: a function here is one atomic step,
-- called with interrupts off and not in an interrupt handler, as its ASSERTs demand.
-- After `switch_threads` the code goes on in the thread switched to, so `schedule` ends with the
-- part of `thread_schedule_tail` that runs there. What a thread does when it runs again is `code`.
pub mod Wellformed
pub mod Switch
pub mod Calls
use cs162_group13_clone.Base.{
  ℕ, ◌+◌, ◌%◌, ◌^◌, ◌==◌, Bool, true, false, not, ◌&&◌, List, [], ◌∷◌, ◌++◌, Option, none, some,
  Outcome, ok, assert, ◌>>=◌, ◌>>◌, if◌then◌else◌, leb,
}

-- enum thread_status
pub data Status : Type 0 where
  running ready blocked dying : Status

abbrev pub is_running : Status → Bool
is_running running = true
is_running ready = false
is_running blocked = false
is_running dying = false

abbrev pub is_ready : Status → Bool
is_ready ready = true
is_ready running = false
is_ready blocked = false
is_ready dying = false

abbrev pub is_blocked : Status → Bool
is_blocked blocked = true
is_blocked running = false
is_blocked ready = false
is_blocked dying = false

abbrev pub is_dying : Status → Bool
is_dying dying = true
is_dying running = false
is_dying ready = false
is_dying blocked = false

-- Where a thread stands: in code of its own, in the loop of `sema_down` on a semaphore, in that
-- loop for `lock_acquire`, past that loop and about to become the lock's holder, or no longer the
-- holder and about to up the lock's semaphore. Interrupts are on at the last two points.
pub data Code : Type 0 where
  own : Code
  in_down : ℕ → Code
  in_acquire : ℕ → Code
  taken : ℕ → Code
  releasing : ℕ → Code

pub record Sema : Type 0 where
  pub value : ℕ
  pub waiters : List ℕ

-- A semaphore is named by its address; that of a lock's semaphore is the lock's.
pub record Kernel : Type 0 where
  pub is_thread : ℕ → Bool
  pub status : ℕ → Status
  pub code : ℕ → Code
  pub ready_list : List ℕ
  pub current : ℕ
  pub idle_thread : ℕ
  pub initial_thread : ℕ
  pub thread_ticks : ℕ
  pub semas : ℕ → Sema
  pub holder : ℕ → Option ℕ

abbrev pub update {ℓ} : {A : Type ℓ} → (ℕ → A) → ℕ → A → ℕ → A
update f t v u = if u == t then v else f u

abbrev pub set_status : Kernel → ℕ → Status → Kernel
set_status k t s = record k { status = update k.status t s }

unfoldable pub thread_unblock : Kernel → ℕ → Outcome Kernel
thread_unblock k t =
    assert (k.is_thread t)
    >> assert (is_blocked (k.status t))
    >> ok (set_status (record k { ready_list = k.ready_list ++ t ∷ [] }) t ready)

-- The thread to run next, and the ready list without it.
unfoldable pub next_thread_to_run : List ℕ → ℕ → ℕ × List ℕ
next_thread_to_run [] idle = (idle, [])
next_thread_to_run (t ∷ ts) idle = (t, ts)

-- The part of `thread_schedule_tail` after the switch is complete: the page of a dying thread is
-- freed. `prev` is none where no switch took place.
unfoldable pub free_dying : Kernel → Option ℕ → Outcome Kernel
free_dying k none = ok k
free_dying k (some prev) =
    if is_dying (k.status prev) && not (prev == k.initial_thread)
    then assert (not (prev == k.current))
      >> ok (record k { is_thread = update k.is_thread prev false })
    else ok k

unfoldable pub thread_schedule_tail : Kernel → Option ℕ → Outcome Kernel
thread_schedule_tail k prev =
    free_dying (record k { status = update k.status k.current running; thread_ticks = 0 }) prev

unfoldable pub schedule : Kernel → Outcome Kernel
schedule k =
    let (next, rest) = next_thread_to_run k.ready_list k.idle_thread in
    assert (not (is_running (k.status k.current)))
    >> assert (k.is_thread next)
    >> thread_schedule_tail (record k { current = next; ready_list = rest })
        (if k.current == next then none else some k.current)

unfoldable pub thread_block : Kernel → Outcome Kernel
thread_block k = schedule (set_status k k.current blocked)

unfoldable pub thread_yield : Kernel → Outcome Kernel
thread_yield k = schedule (
    set_status
      (record k {
        ready_list =
            if k.current == k.idle_thread then k.ready_list else k.ready_list ++ k.current ∷ [];
      })
      k.current ready)

-- From `intr_disable` on, after `process_exit`; the list of all threads is not kept.
unfoldable pub thread_exit : Kernel → Outcome Kernel
thread_exit k = schedule (set_status k k.current dying)

-- `fresh` is the page that the allocator gives, if any; the new thread starts in code of its own.
-- Its tid, its name and its stack frames are not kept.
unfoldable pub thread_create : Kernel → Option ℕ → Outcome (Option ℕ × Kernel)
thread_create k none = ok (none, k)
thread_create k (some t) = do
  k' ←
      thread_unblock
        (record k {
          is_thread = update k.is_thread t true;
          status = update k.status t blocked;
          code = update k.code t own;
        })
        t
  ok (some t, k')

abbrev pub time_slice : ℕ
time_slice = 4

-- The part of `thread_tick` that matters to scheduling: whether the timer interrupt makes the
-- running thread yield when it returns.
unfoldable pub thread_tick : Kernel → Bool × Kernel
thread_tick k =
    let ticks = (k.thread_ticks + 1) % 2 ^ 32 in
    (leb time_slice ticks, record k { thread_ticks = ticks })
