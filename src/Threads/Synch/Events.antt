-- ===== src/Threads/Synch/Events.antt =====
-- One CPU's history: calls of thread.c and synch.c by the running thread, its going on from where
-- it stands, preemption by the timer, and `sema_up` by interrupt handlers, in any order.
pub mod Perform
use cs162_group13_clone.Base.{
  ℕ, ◌==◌, ◌≡◌, Bool, true, false, List, [], Option, none, some, Outcome, ok, ◌>>=◌,
}
use cs162_group13_clone.Threads.Scheduler.{
  Kernel, Code, own, thread_block, thread_yield, thread_exit, thread_create,
}
use cs162_group13_clone.Threads.Scheduler.Wellformed.{IsWellformed}
use cs162_group13_clone.Threads.Synch.{
  resume, sema_down, sema_try_down, sema_up, lock_acquire, lock_try_acquire, lock_release,
  lock_held_by_current_thread,
}

pub data Event : Type 0 where
  go_on preempt idle_block exit : Event
  create : ℕ → Event
  down try_down up : ℕ → Event
  acquire try_acquire release : ℕ → Event

unfoldable pub perform : Kernel → Event → Outcome Kernel
perform k go_on = resume k (k.code k.current)
perform k preempt = thread_yield k
perform k idle_block = thread_block k
perform k exit = thread_exit k
perform k (create t) = do (tid, k') ← thread_create k (some t); ok k'
perform k (down s) = sema_down k s
perform k (try_down s) = ok (sema_try_down k s).1
perform k (up s) = sema_up k s
perform k (acquire l) = lock_acquire k l
perform k (try_acquire l) = do (success, k') ← lock_try_acquire k l; ok k'
perform k (release l) = lock_release k l

-- The running thread is in code of its own and is not the idle thread.
abbrev pub InOwnCode : Kernel → Type 0
InOwnCode k = ((k.current == k.idle_thread) ≡ false) × (k.code k.current ≡ own)

-- What a caller owes: the idle thread only blocks, a new thread's page is no thread's, locks are
-- used through the lock functions only, and released by their holder only. An interrupt may come
-- at any place.
abbrev pub Allowed : (ℕ → Bool) → Kernel → Event → Type 0
Allowed is_lock k go_on = Unit {0}
Allowed is_lock k preempt = Unit {0}
Allowed is_lock k idle_block = (k.current == k.idle_thread) ≡ true
Allowed is_lock k exit = InOwnCode k
Allowed is_lock k (create t) = k.is_thread t ≡ false
Allowed is_lock k (down s) = InOwnCode k × (is_lock s ≡ false)
Allowed is_lock k (try_down s) = is_lock s ≡ false
Allowed is_lock k (up s) = is_lock s ≡ false
Allowed is_lock k (acquire l) =
    InOwnCode k × (is_lock l ≡ true) × (lock_held_by_current_thread k l ≡ false)
Allowed is_lock k (try_acquire l) =
    InOwnCode k × (is_lock l ≡ true) × (lock_held_by_current_thread k l ≡ false)
Allowed is_lock k (release l) =
    InOwnCode k × (is_lock l ≡ true) × (lock_held_by_current_thread k l ≡ true)

-- After `sema_init` and `lock_init`: nothing waits, and every lock is free.
pub record Booted (is_lock : ℕ → Bool) (k : Kernel) : Type 0 where
  pub wellformed : IsWellformed k
  pub none_waits : (s : ℕ) → (k.semas s).waiters ≡ []
  pub own_code : (t : ℕ) → k.code t ≡ own
  pub free : (l : ℕ) → is_lock l ≡ true → ((k.semas l).value ≡ 1) × (k.holder l ≡ none)

pub data Reaches (is_lock : ℕ → Bool) : Kernel → Type 0 where
  boot : (k : Kernel) → Booted is_lock k → Reaches is_lock k
  then_event :
      (k : Kernel) (e : Event) (k' : Kernel)
      → Reaches is_lock k
      → Allowed is_lock k e
      → perform k e ≡ ok k'
      → Reaches is_lock k'
