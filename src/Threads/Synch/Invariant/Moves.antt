-- ===== src/Threads/Synch/Invariant/Moves.antt =====
-- A thread's moves between places, and the scheduler's steps, keep the invariant of semaphores and
-- locks.
use cs162_group13_clone.Base.{
  ℕ, ◌-◌, ◌<◌, ◌==◌, ◌≡◌, refl, Bool, true, false, Option, none, some, arith,
}
use cs162_group13_clone.Threads.Scheduler.{Kernel, Code, own, taken, releasing, update}
use cs162_group13_clone.Threads.Scheduler.Wellformed.{waits_on, IsWellformed}
use cs162_group13_clone.Threads.Scheduler.Calls.{Rescheduled, Created}
use cs162_group13_clone.Threads.Synch.{set_sema, set_code}
use cs162_group13_clone.Threads.Synch.Places.{
  passed, set_code-awake, set_code-IsWellformed, set_value-IsWellformed,
}
use cs162_group13_clone.Threads.Synch.Invariant.{held, fits, IsSound}

-- Entry into a loop.
pub enter-IsSound :
    (is_lock : ℕ → Bool) (k : Kernel) (c : Code)
    → IsSound is_lock k
    → k.code k.current ≡ own
    → (k.current == k.idle_thread) ≡ false
    → fits is_lock c ≡ true
    → ((l : ℕ) → passed l c ≡ false)
    → IsSound is_lock (set_code k c)
enter-IsSound is_lock k c v e h f n = record {
  wellformed = set_code-IsWellformed k c v.wellformed h;
  no_lost_wakeup =
      λ s. ground (arith, v.no_lost_wakeup s, set_code-awake (waits_on s) k c v.wellformed, e);
  kinds = λ t. ground (arith, v.kinds t, f);
  passed_awake = λ l t p. ground (arith, p, v.passed_awake l t);
  exclusive =
      λ l q. ground (arith, v.exclusive l q, set_code-awake (passed l) k c v.wellformed, e, n l);
}

-- A thread that takes one of the value with no wait.
pub take-IsSound :
    (is_lock : ℕ → Bool) (k : Kernel) (s : ℕ)
    → IsSound is_lock k
    → is_lock s ≡ false
    → IsSound is_lock (set_sema k s (record (k.semas s) { value = (k.semas s).value - 1 }))
take-IsSound is_lock k s v h = record {
  wellformed = set_value-IsWellformed k s ((k.semas s).value - 1) v.wellformed;
  no_lost_wakeup = λ i. ground (arith, v.no_lost_wakeup i, v.no_lost_wakeup s);
  kinds = v.kinds;
  passed_awake = v.passed_awake;
  exclusive = λ l q. ground (arith, h, q, v.exclusive l q);
}

pub try_acquire-IsSound :
    (is_lock : ℕ → Bool) (k : Kernel) (s : ℕ)
    → IsSound is_lock k
    → k.code k.current ≡ own
    → (k.current == k.idle_thread) ≡ false
    → is_lock s ≡ true
    → 0 < (k.semas s).value
    → IsSound is_lock
        (set_code (set_sema k s (record (k.semas s) { value = (k.semas s).value - 1 })) (taken s))
try_acquire-IsSound is_lock k s v e h f z =
    let w = set_value-IsWellformed k s ((k.semas s).value - 1) v.wellformed in
    let m = λ (p : Code → Bool).
      set_code-awake p (set_sema k s (record (k.semas s) { value = (k.semas s).value - 1 }))
        (taken s) w in
    record {
      wellformed = set_code-IsWellformed _ (taken s) w h;
      no_lost_wakeup =
          λ i. ground (arith, v.no_lost_wakeup i, v.no_lost_wakeup s, m (waits_on i), e);
      kinds = λ t. ground (arith, v.kinds t, f);
      passed_awake = λ l t p. ground (arith, p, v.passed_awake l t);
      exclusive = λ l q. ground (arith, v.exclusive l q, m (passed l), e);
    }

-- The scheduler does not know the locks' holders.
set_holder-IsWellformed :
    (k : Kernel) (f : ℕ → Option ℕ) → IsWellformed k → IsWellformed (record k { holder = f })
set_holder-IsWellformed k f w = record {
  running_iff = w.running_iff;
  ready_iff = w.ready_iff;
  waiting_iff = w.waiting_iff;
  ready_distinct = w.ready_distinct;
  waiting_distinct = w.waiting_distinct;
  idle_alive = w.idle_alive;
  idle_own = w.idle_own;
}

-- The thread that has taken a lock finds that the lock has no holder, and becomes it.
pub hold-IsSound :
    (is_lock : ℕ → Bool) (k : Kernel) (s : ℕ)
    → IsSound is_lock k
    → k.code k.current ≡ taken s
    → (k.current == k.idle_thread) ≡ false
    → IsSound is_lock (set_code (record k { holder = update k.holder s (some k.current) }) own)
hold-IsSound is_lock k s v e h =
    let m = λ (p : Code → Bool). set_code-awake p k own v.wellformed in
    record {
      wellformed =
          set_code-IsWellformed (record k { holder = update k.holder s (some k.current) }) own
            (set_holder-IsWellformed k _ v.wellformed) h;
      no_lost_wakeup = λ i. ground (arith, v.no_lost_wakeup i, m (waits_on i), e);
      kinds = λ t. ground (arith, v.kinds t);
      passed_awake = λ l t p. ground (arith, p, v.passed_awake l t);
      exclusive = λ l q. ground (arith, v.exclusive l q, m (passed l), e);
    }

pub unhold-IsSound :
    (is_lock : ℕ → Bool) (k : Kernel) (s : ℕ)
    → IsSound is_lock k
    → k.code k.current ≡ own
    → (k.current == k.idle_thread) ≡ false
    → is_lock s ≡ true
    → held (k.holder s) ≡ 1
    → IsSound is_lock (set_code (record k { holder = update k.holder s none }) (releasing s))
unhold-IsSound is_lock k s v e h f g =
    let m = λ (p : Code → Bool). set_code-awake p k (releasing s) v.wellformed in
    record {
      wellformed =
          set_code-IsWellformed (record k { holder = update k.holder s none }) (releasing s)
            (set_holder-IsWellformed k _ v.wellformed) h;
      no_lost_wakeup = λ i. ground (arith, v.no_lost_wakeup i, m (waits_on i), e);
      kinds = λ t. ground (arith, v.kinds t, f);
      passed_awake = λ l t p. ground (arith, p, v.passed_awake l t);
      exclusive = λ l q. ground (arith, v.exclusive l q, m (passed l), e, g);
    }

pub Rescheduled-IsSound :
    (is_lock : ℕ → Bool) (k k' : Kernel) → IsSound is_lock k → Rescheduled k k' → IsSound is_lock k'
Rescheduled-IsSound is_lock k k' v x = record {
  wellformed = x.wellformed;
  no_lost_wakeup = λ s. rw (x.same_semas, x.same_awake (waits_on s) refl) (v.no_lost_wakeup s);
  kinds = λ t. rw x.same_code (v.kinds t);
  passed_awake =
      λ l t p. let p' = rw x.same_code at p in x.stays (passed l) t refl p' (v.passed_awake l t p');
  exclusive =
      λ l q. rw (x.same_semas, x.same_holder, x.same_awake (passed l) refl) (v.exclusive l q);
}

old_passed :
    (k : Kernel) (t l u : ℕ) → passed l (update k.code t own u) ≡ true → passed l (k.code u) ≡ true
old_passed k t l u p = ground (arith, p)

pub Created-IsSound :
    (is_lock : ℕ → Bool) (k : Kernel) (t : ℕ) (k' : Kernel)
    → IsSound is_lock k
    → Created k t k'
    → IsSound is_lock k'
Created-IsSound is_lock k t k' v x = record {
  wellformed = x.wellformed;
  no_lost_wakeup = λ s. rw (x.same_semas, x.same_awake (waits_on s) refl) (v.no_lost_wakeup s);
  kinds = λ u. rw x.same_code (ground (arith, v.kinds u));
  passed_awake = λ l u p.
      let p' = old_passed k t l u (rw x.same_code at p) in
      x.stays (passed l) u refl p' (v.passed_awake l u p');
  exclusive =
      λ l q. rw (x.same_semas, x.same_holder, x.same_awake (passed l) refl) (v.exclusive l q);
}
