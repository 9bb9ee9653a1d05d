-- ===== src/Threads/Synch/Liveness.antt =====
-- How long a ready thread waits for the CPU.
use mathlib.Core.List.{append_assoc}
use cs162_group13_clone.Base.{
  sym, ◌∙◌, ap, ℕ, zero, suc, ◌+◌, ◌≤◌, ◌≡◌, ◌≢◌, ◌==◌, List, [], ◌∷◌, ◌++◌, Bool, true, false,
  length, Outcome, ok, ◌>>=◌, arith, if◌then◌else◌, refl,
}
use cs162_group13_clone.Threads.Scheduler.{Kernel}
use cs162_group13_clone.Threads.Scheduler.Wellformed.{InTurn, goes_on, gives_way, idles}
use cs162_group13_clone.Threads.Scheduler.Calls.{thread_yield-first}
use cs162_group13_clone.Threads.Synch.Events.{Event, preempt, perform, Allowed, Reaches, then_event}
use cs162_group13_clone.Threads.Synch.Guarantees.{
  perform-no_panic, Reaches-IsWellformed, perform-InTurn,
}

-- Allowed events after each of which t does not run, and how often the CPU changes hands in them.
pub data Waits (is_lock : ℕ → Bool) (t : ℕ) : Kernel → ℕ → Kernel → Type 0 where
  so_far : (k : Kernel) → Waits is_lock t k 0 k
  still_waits :
      (k : Kernel) (e : Event) (k' : Kernel) (n : ℕ) (k'' : Kernel)
      → Allowed is_lock k e
      → perform k e ≡ ok k'
      → (k'.current == t) ≡ false
      → Waits is_lock t k' n k''
      → Waits is_lock t k ((if k'.current == k.current then 0 else 1) + n) k''

-- The timer preempts the running thread so many times.
abbrev pub preempts : ℕ → Kernel → Outcome Kernel
preempts zero k = ok k
preempts (suc n) k = do k' ← perform k preempt; preempts n k'

-- Where a thread is on the ready list: so many are ahead of it.
record Place (t : ℕ) (queue : List ℕ) (m : ℕ) : Type 0 where
  ahead : List ℕ
  behind : List ℕ
  queue_is : queue ≡ ahead ++ t ∷ behind
  count : length ahead ≡ m

cons_eq : {x y : ℕ} {xs ys : List ℕ} → x ∷ xs ≡ y ∷ ys → (x ≡ y) × (xs ≡ ys)
cons_eq e = (cc, cc)

pass :
    (t : ℕ) (ahead behind later : List ℕ) (cur' : ℕ) (queue' : List ℕ)
    → (ahead ++ t ∷ behind) ++ later ≡ cur' ∷ queue'
    → (cur' == t) ≡ false
    → (m : ℕ) × Place t queue' m × (m + 1 ≤ length ahead)
pass t [] behind later cur' queue' e n = let (c, r) = cons_eq e in absurd (ground (arith, c, n))
pass t (a ∷ ahead) behind later cur' queue' e n =
    let (c, r) = cons_eq e in
    (
      length ahead,
      record {
        ahead = ahead;
        behind = behind ++ later;
        queue_is = sym r ∙ append_assoc ahead (t ∷ behind) later;
        count = refl;
      },
      omega arith,
    )

no_longer : (t : ℕ) (ahead behind : List ℕ) → ahead ++ t ∷ behind ≢ []
no_longer t [] behind e = cc
no_longer t (a ∷ ahead) behind e = cc

-- One step brings the thread nearer to the CPU by the hands that the CPU goes through.
step_nearer :
    (t : ℕ) (queue : List ℕ) (idle cur cur' : ℕ) (queue' : List ℕ) (m : ℕ)
    → InTurn queue idle cur cur' queue'
    → Place t queue m
    → (cur' == t) ≡ false
    → (m' : ℕ) × Place t queue' m' × (m' + (if cur' == cur then 0 else 1) ≤ m)
step_nearer t queue idle cur cur' queue' m (goes_on later c q) p n =
    let same : (cur' == cur) ≡ true = ground (arith, c) in
    (
      m,
      record {
        ahead = p.ahead;
        behind = p.behind ++ later;
        queue_is =
            q
            ∙ ap (λ (xs : List ℕ). xs ++ later) p.queue_is
            ∙ append_assoc p.ahead (t ∷ p.behind) later;
        count = p.count;
      },
      rw same (omega arith),
    )
step_nearer t queue idle cur cur' queue' m (gives_way later q) p n =
    let e : (p.ahead ++ t ∷ p.behind) ++ later ≡ cur' ∷ queue' =
      sym (ap (λ (xs : List ℕ). xs ++ later) p.queue_is) ∙ q in
    let (m', p', b) = pass t p.ahead p.behind later cur' queue' e n in
    let c = p.count in (m', p', ground (arith, b, c))
step_nearer t queue idle cur cur' queue' m (idles q c r) p n =
    absurd (no_longer t p.ahead p.behind (sym p.queue_is ∙ q))

nearer :
    (is_lock : ℕ → Bool) (t : ℕ) (k : Kernel) (n : ℕ) (k' : Kernel) (m : ℕ)
    → Reaches is_lock k
    → Place t k.ready_list m
    → Waits is_lock t k n k'
    → Reaches is_lock k' × ((m' : ℕ) × Place t k'.ready_list m' × (m' + n ≤ m))
nearer is_lock t k n k' m r p (so_far _) = (r, (m, p, omega arith))
nearer is_lock t k n k' m r p (still_waits _ e k1 n1 _ a h q w) =
    let (m1, p1, b1) =
      step_nearer t k.ready_list k.idle_thread k.current k1.current k1.ready_list m
        (perform-InTurn is_lock k e k1 r a h) p q in
    let (r', (m', p', b')) = nearer is_lock t k1 n1 k' m1 (then_event k e k1 r a h) p1 w in
    (r', (m', p', omega arith))

preempted :
    (is_lock : ℕ → Bool) (t : ℕ) (k : Kernel) (ahead behind : List ℕ)
    → Reaches is_lock k
    → k.ready_list ≡ ahead ++ t ∷ behind
    → (k' : Kernel) × (preempts (suc (length ahead)) k ≡ ok k') × (k'.current ≡ t)
unfolding perform
preempted is_lock t k [] behind r q =
    let (k1, h, r1) = perform-no_panic is_lock k preempt r tt in
    let (c, (later, rest)) =
      thread_yield-first k k1 t behind (Reaches-IsWellformed is_lock k r) h q in
    (k1, rw h refl, c)
preempted is_lock t k (a ∷ ahead) behind r q =
    let (k1, h, r1) = perform-no_panic is_lock k preempt r tt in
    let (c, (later, rest)) =
      thread_yield-first k k1 a (ahead ++ t ∷ behind) (Reaches-IsWellformed is_lock k r) h q in
    let (k2, h2, c2) =
      preempted is_lock t k1 ahead (behind ++ later) r1
        (rest ∙ append_assoc ahead (t ∷ behind) later) in
    (k2, rw h h2, c2)

-- A ready thread gets the CPU: where, in a state that allowed events lead to from boot, some threads
-- are ahead of a thread on the ready list, and allowed events follow after each of which the thread
-- does not run, the thread is still on the ready list, the threads ahead of it and the times that the
-- CPU has changed hands are together at most the threads that were ahead, and after one preemption
-- more than there are threads ahead now, the thread runs.
pub Reaches-gets_cpu :
    (is_lock : ℕ → Bool) (k : Kernel) (t : ℕ) (ahead behind : List ℕ) (n : ℕ) (k' : Kernel)
    → Reaches is_lock k
    → k.ready_list ≡ ahead ++ t ∷ behind
    → Waits is_lock t k n k'
    → (ahead' : List ℕ) × (behind' : List ℕ) × (k'.ready_list ≡ ahead' ++ t ∷ behind')
      × (length ahead' + n ≤ length ahead)
      × (k'' : Kernel) × (preempts (suc (length ahead')) k' ≡ ok k'')
      × (k''.current ≡ t)
Reaches-gets_cpu is_lock k t ahead behind n k' r q w =
    let start : Place t k.ready_list (length ahead) = record {
      ahead = ahead;
      behind = behind;
      queue_is = q;
      count = refl;
    } in
    let (r', (m, p, b)) = nearer is_lock t k n k' (length ahead) r start w in
    let (k'', h, c) = preempted is_lock t k' p.ahead p.behind r' p.queue_is in
    (p.ahead, p.behind, p.queue_is, ground (arith, b, p.count), k'', h, c)
