-- ===== src/Threads/Synch/Tests.antt =====
-- Three threads, 1 the current, 2 ready and 100 the idle one, a semaphore 10 and a lock 20.
use cs162_group13_clone.Base.{
  List, ◌++◌, inr, suc, length, true, ℕ, ◌+◌, ◌≤◌, ◌==◌, ◌≡◌, ◌⊎◌, refl, Bool, ◌||◌, [], ◌∷◌, none,
  ok, arith, if◌then◌else◌,
}
use cs162_group13_clone.Threads.Scheduler.{
  update, thread_yield, thread_create, thread_unblock, schedule, next_thread_to_run,
  thread_schedule_tail, free_dying, Kernel, own, in_down, in_acquire, taken, running, ready,
  blocked,
}
use cs162_group13_clone.Threads.Scheduler.Wellformed.{waits_on, IsWellformed, awake}
use cs162_group13_clone.Threads.Synch.{set_sema, set_code, down_round, lock_acquire}
use cs162_group13_clone.Threads.Synch.Places.{passed}
use cs162_group13_clone.Threads.Synch.Invariant.{held}
use cs162_group13_clone.Threads.Synch.Events.{
  acquire, create, preempt, perform, Booted, Reaches, boot, then_event,
}
use cs162_group13_clone.Threads.Synch.Liveness.{so_far, still_waits, preempts, Reaches-gets_cpu}
use cs162_group13_clone.Threads.Synch.Guarantees.{
  Owns, perform-no_panic, Reaches-IsWellformed, Reaches-no_lost_wakeup, Reaches-lock_balance,
  Reaches-mutual_exclusion,
}

abbrev is_lock : ℕ → Bool
is_lock l = l == 20

abbrev booted : Kernel
booted = record {
  is_thread = λ t. t == 1 || t == 2 || t == 100;
  status = λ t. if t == 1 then running else if t == 2 then ready else blocked;
  code = λ t. own;
  ready_list = 2 ∷ [];
  current = 1;
  idle_thread = 100;
  initial_thread = 1;
  thread_ticks = 0;
  semas = λ s.
      if s == 20 then record { value = 1; waiters = [] } else record { value = 0; waiters = [] };
  holder = λ l. none;
}

booted-Booted : Booted is_lock booted
booted-Booted = record {
  wellformed = record {
    running_iff = λ t. ground arith;
    ready_iff = λ t. ground arith;
    waiting_iff = λ s t. ground arith;
    ready_distinct = refl;
    waiting_distinct = λ s. ground arith;
    idle_alive = refl;
    idle_own = refl;
  };
  none_waits = λ s. ground arith;
  own_code = λ t. refl;
  free = λ l h. (ground arith, refl);
}

abbrev yielded : Kernel
yielded = record booted {
  status = update (update booted.status 1 ready) 2 running;
  ready_list = 1 ∷ [];
  current = 2;
}

booted-yielded : perform booted preempt ≡ ok yielded
unfolding perform thread_yield schedule next_thread_to_run thread_schedule_tail free_dying
booted-yielded = refl

-- Thread 1 has passed the lock's semaphore.
abbrev passing : Kernel
passing =
    set_code (set_sema (set_code booted (in_acquire 20)) 20 (record { value = 0; waiters = [] }))
      (taken 20)

booted-Reaches : Reaches is_lock booted
booted-Reaches = boot booted booted-Booted

passing-Reaches : Reaches is_lock passing
unfolding perform lock_acquire down_round
passing-Reaches =
    then_event booted (acquire 20) passing booted-Reaches ((refl, refl), refl, refl) refl

perform-no_panic_example : (k' : Kernel) × (perform passing preempt ≡ ok k') × Reaches is_lock k'
perform-no_panic_example = perform-no_panic is_lock passing preempt passing-Reaches tt

Reaches-IsWellformed_example : IsWellformed passing
Reaches-IsWellformed_example = Reaches-IsWellformed is_lock passing passing-Reaches

Reaches-no_lost_wakeup_example :
    ((passing.semas 20).waiters ≡ []) ⊎ ((passing.semas 20).value ≤ awake (waits_on 20) passing)
Reaches-no_lost_wakeup_example = Reaches-no_lost_wakeup is_lock passing 20 passing-Reaches

Reaches-lock_balance_example :
    (passing.semas 20).value + held (passing.holder 20) + awake (passed 20) passing ≡ 1
Reaches-lock_balance_example = Reaches-lock_balance is_lock passing 20 passing-Reaches refl

Reaches-mutual_exclusion_example : ¬ Owns passing 20 2
Reaches-mutual_exclusion_example =
    Reaches-mutual_exclusion is_lock passing 20 1 2 passing-Reaches refl (inr refl) (omega arith)

-- Thread 1 in the loop of the semaphore.
abbrev waiting : Kernel
waiting = set_code booted (in_down 10)

waiting-IsWellformed : IsWellformed waiting
waiting-IsWellformed = record {
  running_iff = λ t. ground arith;
  ready_iff = λ t. ground arith;
  waiting_iff = λ s t. ground arith;
  ready_distinct = refl;
  waiting_distinct = λ s. ground arith;
  idle_alive = refl;
  idle_own = refl;
}

-- Thread 2 waits for the semaphore.
abbrev one_waits : Kernel
one_waits = record booted {
  status = λ t. if t == 1 then running else blocked;
  code = λ t. if t == 2 then in_down 10 else own;
  ready_list = [];
  semas = λ s.
      if s == 10
      then record { value = 0; waiters = 2 ∷ [] }
      else record { value = 1; waiters = [] };
}

one_waits-IsWellformed : IsWellformed one_waits
one_waits-IsWellformed = record {
  running_iff = λ t. ground arith;
  ready_iff = λ t. ground arith;
  waiting_iff = λ s t. ground arith;
  ready_distinct = refl;
  waiting_distinct = λ s. ground arith;
  idle_alive = refl;
  idle_own = refl;
}

-- Thread 1 has created thread 3.
abbrev created : Kernel
created = record booted {
  is_thread = update booted.is_thread 3 true;
  status = update (update booted.status 3 blocked) 3 ready;
  code = update booted.code 3 own;
  ready_list = 2 ∷ 3 ∷ [];
}

booted-created : perform booted (create 3) ≡ ok created
unfolding perform thread_create thread_unblock
booted-created = refl

created-Reaches : Reaches is_lock created
created-Reaches = then_event booted (create 3) created booted-Reaches refl booted-created

-- Thread 2 runs, and the threads 3 and 1 are behind it.
abbrev switched : Kernel
switched = record created {
  status = update (update created.status 1 ready) 2 running;
  ready_list = 3 ∷ 1 ∷ [];
  current = 2;
}

created-switched : perform created preempt ≡ ok switched
unfolding perform thread_yield schedule next_thread_to_run thread_schedule_tail free_dying
created-switched = refl

-- Thread 3 has waited for one switch.
Reaches-gets_cpu_example :
    (ahead' : List ℕ) × (behind' : List ℕ) × (switched.ready_list ≡ ahead' ++ 3 ∷ behind')
    × (length ahead' + 1 ≤ length {A = ℕ} (2 ∷ []))
    × (k : Kernel) × (preempts (suc (length ahead')) switched ≡ ok k)
    × (k.current ≡ 3)
Reaches-gets_cpu_example =
    Reaches-gets_cpu is_lock created 3 (2 ∷ []) [] 1 switched created-Reaches refl
      (still_waits created preempt switched 0 switched tt created-switched refl (so_far switched))
