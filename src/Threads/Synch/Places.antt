-- ===== src/Threads/Synch/Places.antt =====
-- How the scheduler's invariant and counts follow a change of the current thread's place or of a
-- semaphore's value.
use cs162_group13_clone.Base.{ℕ, ◌+◌, ◌==◌, ◌≡◌, Bool, true, false, arith}
use cs162_group13_clone.Threads.Scheduler.{Kernel, Code, own, in_down, in_acquire, taken, releasing}
use cs162_group13_clone.Threads.Scheduler.Wellformed.{
  waits_on, IsWellformed, bit_of, awake, count-update,
}
use cs162_group13_clone.Threads.Scheduler.Calls.{current-not_ready}
use cs162_group13_clone.Threads.Synch.{set_sema, set_code}

-- Whether the code is past the loop for the lock and the lock has no holder for it.
abbrev pub passed : ℕ → Code → Bool
passed l own = false
passed l (in_down i) = false
passed l (in_acquire i) = false
passed l (taken i) = i == l
passed l (releasing i) = i == l

pub set_code-IsWellformed :
    (k : Kernel) (c : Code)
    → IsWellformed k
    → (k.current == k.idle_thread) ≡ false
    → IsWellformed (set_code k c)
set_code-IsWellformed k c w h = record {
  running_iff = w.running_iff;
  ready_iff = w.ready_iff;
  waiting_iff = λ s t. ground (arith, w.waiting_iff s t, w.running_iff t);
  ready_distinct = w.ready_distinct;
  waiting_distinct = w.waiting_distinct;
  idle_alive = w.idle_alive;
  idle_own = ground (arith, w.idle_own);
}

pub set_code-awake :
    (p : Code → Bool) (k : Kernel) (c : Code)
    → IsWellformed k
    → awake p (set_code k c) + bit_of (p (k.code k.current)) ≡ awake p k + bit_of (p c)
set_code-awake p k c w =
    ground (arith, count-update p k.code k.ready_list k.current c (current-not_ready k w))

-- Another value for a semaphore with the same waiters.
pub set_value-IsWellformed :
    (k : Kernel) (s v : ℕ)
    → IsWellformed k
    → IsWellformed (set_sema k s (record (k.semas s) { value = v }))
set_value-IsWellformed k s v w = record {
  running_iff = w.running_iff;
  ready_iff = w.ready_iff;
  waiting_iff = λ i t. ground (arith, w.waiting_iff i t);
  ready_distinct = w.ready_distinct;
  waiting_distinct = λ i. ground (arith, w.waiting_distinct i);
  idle_alive = w.idle_alive;
  idle_own = w.idle_own;
}

pub waits_on_unique :
    (s i : ℕ) (c : Code) → waits_on s c ≡ true → (i == s) ≡ false → waits_on i c ≡ false
waits_on_unique s i c h e = ground arith

pub waits_on-not_passed : (s l : ℕ) (c : Code) → waits_on s c ≡ true → passed l c ≡ false
waits_on-not_passed s l c h = ground arith

pub waits_on-not_idle :
    (k : Kernel) (s : ℕ)
    → IsWellformed k
    → waits_on s (k.code k.current) ≡ true
    → (k.current == k.idle_thread) ≡ false
waits_on-not_idle k s w h = ground (arith, w.idle_own)
