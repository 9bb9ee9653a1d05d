-- ===== src/Threads/Scheduler/Switch.antt =====
-- `schedule` keeps the scheduler's invariant, does not panic, and neither loses nor adds a thread.
use native.Mathlib.Decide.{ℕ_discrete}
use cs162_group13_clone.Base.{
  ℕ, ◌==◌, ◌≡◌, ◌∙◌, ◌⊎◌, refl, Bool, true, false, not, ◌&&◌, List, [], ◌∷◌, none, some, ok,
  if◌then◌else◌, arith, Bool-cases, inl, inr,
}
use cs162_group13_clone.Threads.Scheduler.{
  Kernel, Code, own, running, is_running, is_ready, is_blocked, is_dying, update,
  next_thread_to_run, free_dying, thread_schedule_tail, schedule,
}
use cs162_group13_clone.Threads.Scheduler.Wellformed.{
  mem, distinct, waits_on, IsWellformed, IsStopped, count, awake, is_awake, InTurn, gives_way,
  idles, append-nil,
}

-- The next thread and the rest of the ready list, as the scheduler chooses them.
pub data Follows (queue : List ℕ) (idle next : ℕ) (rest : List ℕ) : Type 0 where
  first : queue ≡ next ∷ rest → Follows queue idle next rest
  fall_back : queue ≡ [] → next ≡ idle → rest ≡ [] → Follows queue idle next rest

-- What is known of the thread to run next and the rest of the ready list.
record Chosen (k : Kernel) (next : ℕ) (rest : List ℕ) : Type 0 where
  alive : (k.is_thread next && not (is_dying (k.status next))) ≡ true
  rest_iff :
      (t : ℕ)
      → mem t rest
        ≡ (k.is_thread t && is_ready (k.status t) && not (t == k.idle_thread) && not (t == next))
  rest_distinct : distinct rest ≡ true
  not_waiting : (s : ℕ) → (is_blocked (k.status next) && waits_on s (k.code next)) ≡ false
  order : Follows k.ready_list k.idle_thread next rest
  keeps : (t : ℕ) → mem t k.ready_list ≡ true → mem t (next ∷ rest) ≡ true
  total :
      (p : Code → Bool) → p own ≡ false → count p k.code (next ∷ rest) ≡ count p k.code k.ready_list

next_thread_to_run_lem :
    (k : Kernel)
    → IsStopped k
    → Chosen k
        (next_thread_to_run k.ready_list k.idle_thread).0
        (next_thread_to_run k.ready_list k.idle_thread).1
unfolding next_thread_to_run
next_thread_to_run_lem k w = of_list k.ready_list refl
  where
    of_list :
        (xs : List ℕ)
        → k.ready_list ≡ xs
        → Chosen k (next_thread_to_run xs k.idle_thread).0 (next_thread_to_run xs k.idle_thread).1
    of_list [] e = record {
      alive = w.idle_alive;
      rest_iff = λ t. ground (arith, e, w.ready_iff t);
      rest_distinct = refl;
      not_waiting = λ s. ground (arith, w.idle_own);
      order = fall_back e refl refl;
      keeps = λ t h. ground (arith, e, h);
      total = λ p h. rw (e, w.idle_own, h) refl;
    }
    of_list (x ∷ xs) e = record {
      alive = ground (arith, e, w.ready_iff x);
      rest_iff = λ t. ground (arith, e, w.ready_iff t, w.ready_iff x, w.ready_distinct);
      rest_distinct = ground (arith, e, w.ready_distinct);
      not_waiting = λ s. ground (arith, e, w.ready_iff x);
      order = first e;
      keeps = λ t h. rw e at h;
      total = λ p h. rw e refl;
    }

abbrev switch_to : Kernel → ℕ → List ℕ → (ℕ → Bool) → Kernel
switch_to k next rest alive = record k {
  current = next;
  ready_list = rest;
  status = update k.status next running;
  thread_ticks = 0;
  is_thread = alive;
}

-- Only threads that are dying and not the next one have been freed.
abbrev Survive : Kernel → ℕ → (ℕ → Bool) → Type 0
Survive k next alive =
    (t : ℕ)
    → (alive t ≡ k.is_thread t)
      ⊎ ((alive t ≡ false) × (is_dying (k.status t) ≡ true) × ((t == next) ≡ false))

switch_to-IsWellformed :
    (k : Kernel) (next : ℕ) (rest : List ℕ) (alive : ℕ → Bool)
    → IsStopped k
    → Chosen k next rest
    → Survive k next alive
    → IsWellformed (switch_to k next rest alive)
switch_to-IsWellformed k next rest alive w c v = record {
  running_iff = λ t. ground (arith, w.running_iff t, v t, c.alive);
  ready_iff = λ t. ground (arith, c.rest_iff t, v t);
  waiting_iff = λ s t. ground (arith, w.waiting_iff s t, v t, c.not_waiting s);
  ready_distinct = c.rest_distinct;
  waiting_distinct = w.waiting_distinct;
  idle_alive = ground (arith, w.idle_alive, v k.idle_thread, c.alive);
  idle_own = w.idle_own;
}

-- The thread switched to is the only one that runs, and what the scheduler does not own is as it
-- was; the awake threads are those that were on the ready list.
pub record Switched (k k' : Kernel) : Type 0 where
  pub wellformed : IsWellformed k'
  pub same_code : k'.code ≡ k.code
  pub same_semas : k'.semas ≡ k.semas
  pub same_holder : k'.holder ≡ k.holder
  pub same_idle : k'.idle_thread ≡ k.idle_thread
  pub order : Follows k.ready_list k.idle_thread k'.current k'.ready_list
  pub keeps : (t : ℕ) → mem t k.ready_list ≡ true → is_awake k' t ≡ true
  pub total : (p : Code → Bool) → p own ≡ false → awake p k' ≡ count p k.code k.ready_list

switch_to-Switched :
    (k : Kernel) (next : ℕ) (rest : List ℕ) (alive : ℕ → Bool)
    → IsStopped k
    → Chosen k next rest
    → Survive k next alive
    → Switched k (switch_to k next rest alive)
switch_to-Switched k next rest alive w c v = record {
  wellformed = switch_to-IsWellformed k next rest alive w c v;
  same_code = refl;
  same_semas = refl;
  same_holder = refl;
  same_idle = refl;
  order = c.order;
  keeps = c.keeps;
  total = c.total;
}

free_dying_lem :
    (k : Kernel) (prev : ℕ)
    → (prev == k.current) ≡ false
    → (free_dying k (some prev) ≡ ok k)
      ⊎ ((free_dying k (some prev) ≡ ok (record k { is_thread = update k.is_thread prev false }))
          × (is_dying (k.status prev) ≡ true))
unfolding free_dying
free_dying_lem k prev e =
    elim (Bool-cases (is_dying (k.status prev) && not (prev == k.initial_thread))) [
      | inl d ↦ inr (rw (d, e) refl, ground arith)
      | inr d ↦ inl (rw d refl)
    ]

free_dying-none : (k : Kernel) → free_dying k none ≡ ok k
unfolding free_dying
free_dying-none k = refl

freed :
    (k : Kernel) (next t : ℕ)
    → is_dying (k.status k.current) ≡ true
    → (k.current == next) ≡ false
    → (update k.is_thread k.current false t ≡ k.is_thread t)
      ⊎ ((update k.is_thread k.current false t ≡ false)
          × (is_dying (k.status t) ≡ true)
          × ((t == next) ≡ false))
freed k next t d e = elim (ℕ_discrete t k.current) [
  | yes q ↦ inr (rw q (ground arith), rw q d, rw q e)
  | no q ↦ inl (ground arith)
]

tail_lem :
    (k : Kernel) (next : ℕ) (rest : List ℕ)
    → IsStopped k
    → Chosen k next rest
    → (k' : Kernel) × (thread_schedule_tail
          (record k { current = next; ready_list = rest })
          (if k.current == next then none else some k.current)
        ≡ ok k')
      × Switched k k'
unfolding thread_schedule_tail
tail_lem k next rest w c = elim (Bool-cases (k.current == next)) [
  | inl e ↦
      rw e (_, free_dying-none _, switch_to-Switched k next rest k.is_thread w c (λ t. inl refl))
  | inr e ↦ rw e (elim (free_dying_lem (switch_to k next rest k.is_thread) k.current e) [
    | inl f ↦ (_, f, switch_to-Switched k next rest k.is_thread w c (λ t. inl refl))
    | inr (f, d) ↦ (
      _,
      f,
      switch_to-Switched k next rest (update k.is_thread k.current false) w c
          (λ t. freed k next t (rw e at d) e),
    )
  ])
]

-- `schedule`, called once the current thread has another status than running, does not panic.
pub schedule_lem :
    (k : Kernel)
    → IsStopped k
    → k.is_thread k.current ≡ true
    → (k' : Kernel) × (schedule k ≡ ok k') × Switched k k'
unfolding schedule
schedule_lem k w h =
    let c = next_thread_to_run_lem k w in
    let (k', e, x) = tail_lem k _ _ w c in (k', rw (stopped, alive) e, x)
  where
    stopped : is_running (k.status k.current) ≡ false
    stopped = ground (arith, w.running_iff k.current, h)

    alive : k.is_thread (next_thread_to_run k.ready_list k.idle_thread).0 ≡ true
    alive = ground (arith, (next_thread_to_run_lem k w).alive)

-- A thread that stops leaves the ready list to the next.
pub Follows-InTurn :
    {queue : List ℕ} {idle cur cur' : ℕ} {queue' : List ℕ}
    → Follows queue idle cur' queue'
    → InTurn queue idle cur cur' queue'
Follows-InTurn {queue} (first e) = gives_way [] (append-nil queue ∙ e)
Follows-InTurn (fall_back e n r) = idles e n r
