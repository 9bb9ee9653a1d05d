-- ===== src/Threads/Synch.antt =====
-- pintos/src/threads/synch.c: semaphores and locks, as calls of the running thread.
pub mod Places
pub mod Down
pub mod Up
pub mod Invariant
pub mod Events
pub mod Guarantees
pub mod Liveness
mod Tests
use cs162_group13_clone.Base.{
  ℕ, ◌+◌, ◌-◌, ◌%◌, ◌^◌, ◌==◌, ltb, Bool, true, false, not, List, [], ◌∷◌, ◌++◌, Option, none, some,
  Outcome, ok, assert, ◌>>=◌, ◌>>◌, if◌then◌else◌,
}
use cs162_group13_clone.Threads.Scheduler.{
  Kernel, Sema, Code, own, in_down, in_acquire, taken, releasing, update, thread_block,
  thread_unblock, thread_yield, thread_exit,
}

abbrev pub set_sema : Kernel → ℕ → Sema → Kernel
set_sema k s v = record k { semas = update k.semas s v }

abbrev pub set_code : Kernel → Code → Kernel
set_code k c = record k { code = update k.code k.current c }

unfoldable pub sema_init : Kernel → ℕ → ℕ → Kernel
sema_init k s value = set_sema k s (record { value = value; waiters = [] })

-- One round of the loop of `sema_down`, with what follows the loop: a thread that is woken tests the
-- value again. `after` is where the caller goes on.
unfoldable pub down_round : Kernel → ℕ → Code → Outcome Kernel
down_round k s after =
    let sema = k.semas s in
    if sema.value == 0
    then thread_block (set_sema k s (record sema { waiters = sema.waiters ++ k.current ∷ [] }))
    else ok (set_code (set_sema k s (record sema { value = sema.value - 1 })) after)

unfoldable pub sema_down : Kernel → ℕ → Outcome Kernel
sema_down k s = down_round (set_code k (in_down s)) s own

unfoldable pub sema_try_down : Kernel → ℕ → Bool × Kernel
sema_try_down k s =
    let sema = k.semas s in
    if ltb 0 sema.value
    then (true, set_sema k s (record sema { value = sema.value - 1 }))
    else (false, k)

-- `list_pop_front (&sema->waiters)` and `thread_unblock`, if a thread waits.
unfoldable pub wake_first : Kernel → ℕ → List ℕ → Outcome Kernel
wake_first k s [] = ok k
wake_first k s (t ∷ ts) = thread_unblock (set_sema k s (record (k.semas s) { waiters = ts })) t

unfoldable pub sema_up : Kernel → ℕ → Outcome Kernel
sema_up k s = do
  k' ← wake_first k s (k.semas s).waiters
  ok (set_sema k' s (record (k'.semas s) { value = ((k'.semas s).value + 1) % 2 ^ 32 }))

abbrev pub lock_held_by_current_thread : Kernel → ℕ → Bool
lock_held_by_current_thread k l = elim (k.holder l) [ none ↦ false | some t ↦ t == k.current ]

unfoldable pub lock_init : Kernel → ℕ → Kernel
lock_init k l = sema_init (record k { holder = update k.holder l none }) l 1

unfoldable pub lock_acquire : Kernel → ℕ → Outcome Kernel
lock_acquire k l =
    assert (not (lock_held_by_current_thread k l))
    >> down_round (set_code k (in_acquire l)) l (taken l)

-- A success becomes the holder when the thread goes on.
unfoldable pub lock_try_acquire : Kernel → ℕ → Outcome (Bool × Kernel)
lock_try_acquire k l =
    assert (not (lock_held_by_current_thread k l))
    >> (let (success, k') = sema_try_down k l in
        ok (success, if success then set_code k' (taken l) else k'))

-- The semaphore is upped when the thread goes on.
unfoldable pub lock_release : Kernel → ℕ → Outcome Kernel
lock_release k l =
    assert (lock_held_by_current_thread k l)
    >> ok (set_code (record k { holder = update k.holder l none }) (releasing l))

-- The running thread goes on from where it stands.
unfoldable pub resume : Kernel → Code → Outcome Kernel
resume k own = ok k
resume k (in_down s) = down_round k s own
resume k (in_acquire l) = down_round k l (taken l)
resume k (taken l) = ok (set_code (record k { holder = update k.holder l (some k.current) }) own)
resume k (releasing l) = sema_up (set_code k own) l
