-- ===== src/Threads/Synch/Guarantees.antt =====
-- What the scheduler, semaphores and locks guarantee in every state that events lead to.
use mathlib.Core.Path.{subst}
use native.Mathlib.Decide.{ℕ_discrete}
use cs162_group13_clone.Base.{
  ok-injective, sym, ◌∙◌, List, ◌∷◌, some, inl, inr, ◌≢◌, ap, arith, ℕ, ◌+◌, ◌≤◌, ◌≡◌, ◌⊎◌, Bool,
  true, [], ok,
}
use cs162_group13_clone.Threads.Scheduler.{Kernel, Code}
use cs162_group13_clone.Threads.Scheduler.Wellformed.{
  InTurn, mem, count, waits_on, IsWellformed, awake,
}
use cs162_group13_clone.Threads.Synch.Places.{passed}
use cs162_group13_clone.Threads.Synch.Invariant.{held, IsSound}
use cs162_group13_clone.Threads.Synch.Events.{Event, perform, Allowed, Reaches, then_event}
use cs162_group13_clone.Threads.Synch.Events.Perform.{perform-IsSound, Reaches-IsSound}

-- In every state that allowed events lead to from boot, each allowed event completes: none of the
-- ASSERTs of thread.c and synch.c on the status of threads, on `is_thread` and on the holder of a
-- lock fails.
pub perform-no_panic :
    (is_lock : ℕ → Bool) (k : Kernel) (e : Event)
    → Reaches is_lock k
    → Allowed is_lock k e
    → (k' : Kernel) × (perform k e ≡ ok k') × Reaches is_lock k'
perform-no_panic is_lock k e r a =
    let (k', q, v, turn) = perform-IsSound is_lock k e (Reaches-IsSound is_lock k r) a in
    (k', q, then_event k e k' r a q)

-- In every state that allowed events lead to from boot: exactly the current thread has status
-- running, the ready list is exactly the ready threads but the idle one, and the waiters of each
-- semaphore are exactly the blocked threads whose place is the loop of that semaphore, each once.
pub Reaches-IsWellformed : (is_lock : ℕ → Bool) (k : Kernel) → Reaches is_lock k → IsWellformed k
Reaches-IsWellformed is_lock k r = (Reaches-IsSound is_lock k r).wellformed

-- No wake-up is lost: in every state that allowed events lead to from boot, if threads wait for a
-- semaphore, then its value is at most the number of running or ready threads in its loop, each
-- of which will test the value again.
pub Reaches-no_lost_wakeup :
    (is_lock : ℕ → Bool) (k : Kernel) (s : ℕ)
    → Reaches is_lock k
    → ((k.semas s).waiters ≡ []) ⊎ ((k.semas s).value ≤ awake (waits_on s) k)
Reaches-no_lost_wakeup is_lock k s r = (Reaches-IsSound is_lock k r).no_lost_wakeup s

-- In every state that allowed events lead to from boot, of a lock exactly one of these
-- holds: its value is 1, it has a holder, or one running or ready thread is between the semaphore
-- and the holder field, in `lock_acquire`, `lock_try_acquire` or `lock_release`.
pub Reaches-lock_balance :
    (is_lock : ℕ → Bool) (k : Kernel) (l : ℕ)
    → Reaches is_lock k
    → is_lock l ≡ true
    → (k.semas l).value + held (k.holder l) + awake (passed l) k ≡ 1
Reaches-lock_balance is_lock k l r h = (Reaches-IsSound is_lock k r).exclusive l h

-- A thread owns a lock: it is the holder, or it has downed the lock's semaphore and not yet become
-- the holder, or it has ceased to be the holder and not yet upped the semaphore.
abbrev pub Owns : Kernel → ℕ → ℕ → Type 0
Owns k l t = (k.holder l ≡ some t) ⊎ (passed l (k.code t) ≡ true)

count-one :
    (p : Code → Bool) (code : ℕ → Code) (xs : List ℕ) (t : ℕ)
    → mem t xs ≡ true
    → p (code t) ≡ true
    → 1 ≤ count p code xs
count-one p code [] t m h = cc
count-one p code (x ∷ xs) t m h = elim (ℕ_discrete t x) [
  | yes e ↦ ground (arith, ap code e, h)
  | no ne ↦ ground (arith, count-one p code xs t (ground arith) h)
]

count-two :
    (p : Code → Bool) (code : ℕ → Code) (xs : List ℕ) (t u : ℕ)
    → mem t xs ≡ true
    → mem u xs ≡ true
    → t ≢ u
    → p (code t) ≡ true
    → p (code u) ≡ true
    → 2 ≤ count p code xs
count-two p code [] t u m n ne h i = cc
count-two p code (x ∷ xs) t u m n ne h i = elim (ℕ_discrete t x) [
  | yes e ↦ ground (arith, ap code e, h, count-one p code xs u (ground arith) i)
  | no d ↦ elim (ℕ_discrete u x) [
    | yes e ↦ ground (arith, ap code e, i, count-one p code xs t (ground arith) h)
    | no d' ↦ ground (arith, count-two p code xs t u (ground arith) (ground arith) ne h i)
  ]
]

owners-eq :
    (is_lock : ℕ → Bool) (k : Kernel) (l t u : ℕ)
    → IsSound is_lock k
    → is_lock l ≡ true
    → Owns k l t
    → Owns k l u
    → t ≡ u
owners-eq is_lock k l t u v h (inl a) (inl b) = cc
owners-eq is_lock k l t u v h (inl a) (inr b) = ground (
  arith,
  a,
  v.exclusive l h,
  count-one (passed l) k.code (k.current ∷ k.ready_list) u (v.passed_awake l u b) b,
)
owners-eq is_lock k l t u v h (inr a) (inl b) = ground (
  arith,
  b,
  v.exclusive l h,
  count-one (passed l) k.code (k.current ∷ k.ready_list) t (v.passed_awake l t a) a,
)
owners-eq is_lock k l t u v h (inr a) (inr b) = elim (ℕ_discrete t u) [
  | yes e ↦ e
  | no ne ↦ ground (
    arith,
    v.exclusive l h,
    count-two (passed l) k.code (k.current ∷ k.ready_list) t u (v.passed_awake l t a)
        (v.passed_awake l u b) ne a b,
  )
]

-- Mutual exclusion: in every state that allowed events lead to from boot, while a thread owns a
-- lock no other thread owns it.
pub Reaches-mutual_exclusion :
    (is_lock : ℕ → Bool) (k : Kernel) (l t u : ℕ)
    → Reaches is_lock k
    → is_lock l ≡ true
    → Owns k l t
    → t ≢ u
    → ¬ Owns k l u
Reaches-mutual_exclusion is_lock k l t u r h a ne b =
    ne (owners-eq is_lock k l t u (Reaches-IsSound is_lock k r) h a b)

-- Threads run in turn: by an event that is allowed in a state that allowed events lead to from
-- boot, the current thread goes on, or gives way to the first thread of the ready list, or to the
-- idle thread if that list is empty; the others keep their order, and threads that become ready
-- are put behind them.
pub perform-InTurn :
    (is_lock : ℕ → Bool) (k : Kernel) (e : Event) (k' : Kernel)
    → Reaches is_lock k
    → Allowed is_lock k e
    → perform k e ≡ ok k'
    → InTurn k.ready_list k.idle_thread k.current k'.current k'.ready_list
perform-InTurn is_lock k e k' r a h =
    let (k'', q, v, turn) = perform-IsSound is_lock k e (Reaches-IsSound is_lock k r) a in
    subst (λ x. InTurn k.ready_list k.idle_thread k.current x.current x.ready_list)
      (ok-injective (sym q ∙ h)) turn
