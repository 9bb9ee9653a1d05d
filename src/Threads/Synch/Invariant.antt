-- ===== src/Threads/Synch/Invariant.antt =====
-- The invariant of semaphores and locks over every thread's place, and that the operations of
-- synch.c keep it.
pub mod Rounds
pub mod Ups
pub mod Moves
use cs162_group13_clone.Base.{
  ℕ, zero, suc, ◌+◌, ◌≤◌, ◌==◌, ◌≡◌, ◌⊎◌, Bool, true, false, not, List, [], ◌∷◌, Option, none, some,
}
use cs162_group13_clone.Threads.Scheduler.{
  Kernel, Sema, Code, own, in_down, in_acquire, taken, releasing,
}
use cs162_group13_clone.Threads.Scheduler.Wellformed.{waits_on, IsWellformed, awake, is_awake}
use cs162_group13_clone.Threads.Synch.Places.{passed}

abbrev pub held : Option ℕ → ℕ
held none = 0
held (some t) = 1

-- Locks are taken and released as locks only, and other semaphores as semaphores only.
abbrev pub fits : (ℕ → Bool) → Code → Bool
fits is_lock own = true
fits is_lock (in_down s) = not (is_lock s)
fits is_lock (in_acquire l) = is_lock l
fits is_lock (taken l) = is_lock l
fits is_lock (releasing l) = is_lock l

-- While threads wait for a semaphore, each unit of its value has an awake thread in the loop that
-- can take it. A lock is free, or it is one thread's: its holder's, or that of a thread which is
-- about to be its holder or has just ceased to be.
pub record IsSound (is_lock : ℕ → Bool) (k : Kernel) : Type 0 where
  pub wellformed : IsWellformed k
  pub no_lost_wakeup :
      (s : ℕ) → ((k.semas s).waiters ≡ []) ⊎ ((k.semas s).value ≤ awake (waits_on s) k)
  pub kinds : (t : ℕ) → fits is_lock (k.code t) ≡ true
  pub passed_awake : (l t : ℕ) → passed l (k.code t) ≡ true → is_awake k t ≡ true
  pub exclusive :
      (l : ℕ) → is_lock l ≡ true → (k.semas l).value + held (k.holder l) + awake (passed l) k ≡ 1
