-- ===== src/Threads/Scheduler/Calls.antt =====
-- `thread_yield`, `thread_exit`, `thread_create` and the idle thread's `thread_block` keep the
-- scheduler's invariant and do not panic.
use mathlib.Core.Path.{subst}
use cs162_group13_clone.Base.{
  ok-injective, sym, ℕ, ◌==◌, List, ◌≢◌, Bool-cases, ◌≡◌, ◌⊎◌, refl, ◌∙◌, ap, Bool, true, false, [],
  ◌∷◌, ◌++◌, some, ok, if◌then◌else◌, arith, inl, inr,
}
use cs162_group13_clone.Threads.Scheduler.{
  Kernel, Code, own, Status, ready, blocked, dying, is_blocked, update, set_status, schedule,
  thread_unblock, thread_block, thread_yield, thread_exit, thread_create,
}
use cs162_group13_clone.Threads.Scheduler.Wellformed.{
  mem, IsWellformed, IsStopped, bit_of, count, awake, is_awake, InTurn, goes_on, gives_way,
  append-nil, mem-snoc, distinct-snoc, count-snoc, count-update,
}
use cs162_group13_clone.Threads.Scheduler.Switch.{
  Follows, first, fall_back, Follows-InTurn, schedule_lem,
}

-- Another thread may run, but no thread has moved, and as many are awake at each place.
pub record Rescheduled (k k' : Kernel) : Type 0 where
  pub wellformed : IsWellformed k'
  pub same_code : k'.code ≡ k.code
  pub same_semas : k'.semas ≡ k.semas
  pub same_holder : k'.holder ≡ k.holder
  pub same_idle : k'.idle_thread ≡ k.idle_thread
  pub same_awake : (p : Code → Bool) → p own ≡ false → awake p k' ≡ awake p k
  pub in_turn : InTurn k.ready_list k.idle_thread k.current k'.current k'.ready_list
  pub stays :
      (p : Code → Bool) (t : ℕ)
      → p own ≡ false
      → p (k.code t) ≡ true
      → is_awake k t ≡ true
      → is_awake k' t ≡ true

pub current-not_ready : (k : Kernel) → IsWellformed k → mem k.current k.ready_list ≡ false
current-not_ready k w = ground (arith, w.ready_iff k.current, w.running_iff k.current)

pub current-is_thread : (k : Kernel) → IsWellformed k → k.is_thread k.current ≡ true
current-is_thread k w = ground (arith, w.running_iff k.current)

requeue : Kernel → Kernel
requeue k =
    set_status
      (record k {
        ready_list =
            if k.current == k.idle_thread then k.ready_list else k.ready_list ++ k.current ∷ [];
      })
      k.current ready

requeue-IsStopped : (k : Kernel) → IsWellformed k → IsStopped (requeue k)
unfolding requeue
requeue-IsStopped k w = record {
  running_iff = λ t. ground (arith, w.running_iff t);
  ready_iff = λ t. ground (
    arith,
    w.ready_iff t,
    w.running_iff t,
    w.running_iff k.current,
    mem-snoc t k.ready_list k.current,
  );
  waiting_iff = λ s t. ground (arith, w.waiting_iff s t, w.running_iff t);
  ready_distinct = ground (
    arith,
    w.ready_distinct,
    distinct-snoc k.ready_list k.current (current-not_ready k w) w.ready_distinct,
  );
  waiting_distinct = w.waiting_distinct;
  idle_alive = ground (arith, w.idle_alive);
  idle_own = w.idle_own;
}

requeue-count :
    (k : Kernel) (p : Code → Bool)
    → IsWellformed k
    → p own ≡ false
    → count p k.code (requeue k).ready_list ≡ awake p k
unfolding requeue
requeue-count k p w h =
    ground (
      arith,
      ap p w.idle_own,
      h,
      ap (λ t. p (k.code t)),
      count-snoc p k.code k.ready_list k.current,
    )

requeue-mem :
    (k : Kernel) (p : Code → Bool) (t : ℕ)
    → IsWellformed k
    → p own ≡ false
    → p (k.code t) ≡ true
    → is_awake k t ≡ true
    → mem t (requeue k).ready_list ≡ true
unfolding requeue
requeue-mem k p t w h c m =
    ground (arith, ap p w.idle_own, h, c, m, mem-snoc t k.ready_list k.current)

snoc-ne : (xs : List ℕ) (x : ℕ) → xs ++ x ∷ [] ≢ []
snoc-ne [] x h = cc
snoc-ne (y ∷ xs) x h = cc

requeue-InTurn :
    (k : Kernel) {cur' : ℕ} {queue' : List ℕ}
    → Follows (requeue k).ready_list k.idle_thread cur' queue'
    → InTurn k.ready_list k.idle_thread k.current cur' queue'
unfolding requeue
requeue-InTurn k f = elim (Bool-cases (k.current == k.idle_thread)) [
  | inl e ↦ Follows-InTurn (rw e at f)
  | inr e ↦ queued (rw e at f)
]
  where
    queued :
        {cur' : ℕ} {queue' : List ℕ}
        → Follows (k.ready_list ++ k.current ∷ []) k.idle_thread cur' queue'
        → InTurn k.ready_list k.idle_thread k.current cur' queue'
    queued (first q) = gives_way (k.current ∷ []) q
    queued (fall_back q n r) = absurd (snoc-ne k.ready_list k.current q)

-- `thread_yield` does not panic, and keeps the invariant and every thread's place.
pub thread_yield_lem :
    (k : Kernel) → IsWellformed k → (k' : Kernel) × (thread_yield k ≡ ok k') × Rescheduled k k'
unfolding thread_yield requeue
thread_yield_lem k w =
    let (k', e, x) = schedule_lem (requeue k) (requeue-IsStopped k w) (current-is_thread k w) in
    (
      k',
      e,
      record {
        wellformed = x.wellformed;
        same_code = x.same_code;
        same_semas = x.same_semas;
        same_holder = x.same_holder;
        same_idle = x.same_idle;
        in_turn = requeue-InTurn k x.order;
        stays = λ p t h c m. x.keeps t (requeue-mem k p t w h c m);
        same_awake = λ p h. x.total p h ∙ requeue-count k p w h;
      },
    )

Follows-first :
    {y : ℕ} {zs : List ℕ} {idle next : ℕ} {rest : List ℕ}
    → Follows (y ∷ zs) idle next rest
    → (next ≡ y) × (rest ≡ zs)
Follows-first (first e) = (cc, cc)
Follows-first (fall_back e n r) = absurd cc

-- The thread that is first on the ready list runs, and the others keep their order.
abbrev pub Gives : ℕ → List ℕ → ℕ → List ℕ → Type 0
Gives x xs cur' queue' = (cur' ≡ x) × ((later : List ℕ) × (queue' ≡ xs ++ later))

requeue-first :
    (k : Kernel) (x : ℕ) (xs : List ℕ) {cur' : ℕ} {queue' : List ℕ}
    → k.ready_list ≡ x ∷ xs
    → Follows (requeue k).ready_list k.idle_thread cur' queue'
    → Gives x xs cur' queue'
unfolding requeue
requeue-first k x xs q f = elim (Bool-cases (k.current == k.idle_thread)) [
  | inl e ↦ let (c, r) = Follows-first (rw (e, q) at f) in (c, ([], r ∙ sym (append-nil xs)))
  | inr e ↦ let (c, r) = Follows-first (rw (e, q) at f) in (c, (k.current ∷ [], r))
]

-- `thread_yield` gives way to the thread that is first on the ready list.
pub thread_yield-first :
    (k k' : Kernel) (x : ℕ) (xs : List ℕ)
    → IsWellformed k
    → thread_yield k ≡ ok k'
    → k.ready_list ≡ x ∷ xs
    → Gives x xs k'.current k'.ready_list
unfolding thread_yield requeue
thread_yield-first k k' x xs w h q =
    let (k1, e, s) = schedule_lem (requeue k) (requeue-IsStopped k w) (current-is_thread k w) in
    subst (λ (k2 : Kernel). Gives x xs k2.current k2.ready_list) (ok-injective (sym e ∙ h))
      (requeue-first k x xs q s.order)

-- The current thread stops where it can be stopped for good, or until it is the idle thread's turn.
CanStop : Kernel → Status → Type 0
CanStop k s =
    ((s ≡ dying) × ((k.current == k.idle_thread) ≡ false))
    ⊎ ((s ≡ blocked) × ((k.current == k.idle_thread) ≡ true))

stop-IsStopped :
    (k : Kernel) (s : Status)
    → IsWellformed k
    → CanStop k s
    → k.code k.current ≡ own
    → IsStopped (set_status k k.current s)
unfolding CanStop
stop-IsStopped k s w c e = record {
  running_iff = λ t. ground (arith, w.running_iff t, c);
  ready_iff = λ t. ground (arith, w.ready_iff t, w.running_iff t, c);
  waiting_iff = λ i t. ground (arith, w.waiting_iff i t, w.running_iff t, c, e);
  ready_distinct = w.ready_distinct;
  waiting_distinct = w.waiting_distinct;
  idle_alive = ground (arith, w.idle_alive, c);
  idle_own = w.idle_own;
}

stop_lem :
    (k : Kernel) (s : Status)
    → IsWellformed k
    → CanStop k s
    → k.code k.current ≡ own
    → (k' : Kernel) × (schedule (set_status k k.current s) ≡ ok k') × Rescheduled k k'
stop_lem k s w c e =
    let (k', q, x) =
      schedule_lem (set_status k k.current s) (stop-IsStopped k s w c e) (current-is_thread k w) in
    (
      k',
      q,
      record {
        wellformed = x.wellformed;
        same_code = x.same_code;
        same_semas = x.same_semas;
        same_holder = x.same_holder;
        same_idle = x.same_idle;
        in_turn = Follows-InTurn x.order;
        stays = λ p t h c m. x.keeps t (ground (arith, ap p e, h, c, m));
        same_awake = λ p h. x.total p h ∙ omega (arith, ap bit_of (ap p e ∙ h));
      },
    )

-- The idle thread may block: the scheduler still has it to fall back on.
pub thread_block-idle :
    (k : Kernel)
    → IsWellformed k
    → (k.current == k.idle_thread) ≡ true
    → k.code k.current ≡ own
    → (k' : Kernel) × (thread_block k ≡ ok k') × Rescheduled k k'
unfolding thread_block CanStop
thread_block-idle k w h e = stop_lem k blocked w (inr (refl, h)) e

-- `thread_exit` of a thread other than the idle one does not panic and keeps the invariant.
pub thread_exit_lem :
    (k : Kernel)
    → IsWellformed k
    → (k.current == k.idle_thread) ≡ false
    → k.code k.current ≡ own
    → (k' : Kernel) × (thread_exit k ≡ ok k') × Rescheduled k k'
unfolding thread_exit CanStop
thread_exit_lem k w h e = stop_lem k dying w (inl (refl, h)) e

pub thread_unblock_lem :
    (k : Kernel) (t : ℕ)
    → k.is_thread t ≡ true
    → is_blocked (k.status t) ≡ true
    → thread_unblock k t
      ≡ ok (set_status (record k { ready_list = k.ready_list ++ t ∷ [] }) t ready)
unfolding thread_unblock
thread_unblock_lem k t a b = rw (a, b) refl

started : Kernel → ℕ → Kernel
started k t = record k {
  is_thread = update k.is_thread t true;
  status = update (update k.status t blocked) t ready;
  code = update k.code t own;
  ready_list = k.ready_list ++ t ∷ [];
}

not_yet_ready :
    (k : Kernel) (t : ℕ) → IsWellformed k → k.is_thread t ≡ false → mem t k.ready_list ≡ false
not_yet_ready k t w h = ground (arith, w.ready_iff t)

started-IsWellformed :
    (k : Kernel) (t : ℕ) → IsWellformed k → k.is_thread t ≡ false → IsWellformed (started k t)
unfolding started
started-IsWellformed k t w h = record {
  running_iff = λ u. ground (arith, w.running_iff u, h);
  ready_iff = λ u. ground (arith, w.ready_iff u, mem-snoc u k.ready_list t, w.idle_alive);
  waiting_iff = λ s u. ground (arith, w.waiting_iff s u);
  ready_distinct = distinct-snoc k.ready_list t (not_yet_ready k t w h) w.ready_distinct;
  waiting_distinct = w.waiting_distinct;
  idle_alive = ground (arith, w.idle_alive);
  idle_own = ground (arith, w.idle_own);
}

started-awake :
    (k : Kernel) (t : ℕ) (p : Code → Bool)
    → IsWellformed k
    → k.is_thread t ≡ false
    → p own ≡ false
    → awake p (started k t) ≡ awake p k
unfolding started
started-awake k t p w h e = ground (
  arith,
  count-snoc p (update k.code t own) k.ready_list t,
  count-update p k.code k.ready_list t own (not_yet_ready k t w h),
  w.running_iff k.current,
  e,
)

-- What a new thread leaves as it was.
pub record Created (k : Kernel) (t : ℕ) (k' : Kernel) : Type 0 where
  pub wellformed : IsWellformed k'
  pub alive : k'.is_thread t ≡ true
  pub same_current : k'.current ≡ k.current
  pub same_code : k'.code ≡ update k.code t own
  pub same_semas : k'.semas ≡ k.semas
  pub same_holder : k'.holder ≡ k.holder
  pub same_awake : (p : Code → Bool) → p own ≡ false → awake p k' ≡ awake p k
  pub in_turn : InTurn k.ready_list k.idle_thread k.current k'.current k'.ready_list
  pub stays :
      (p : Code → Bool) (t : ℕ)
      → p own ≡ false
      → p (k.code t) ≡ true
      → is_awake k t ≡ true
      → is_awake k' t ≡ true

-- `thread_create` on a page that is no thread yet does not panic, keeps the invariant, and starts
-- the thread.
pub thread_create_lem :
    (k : Kernel) (t : ℕ)
    → IsWellformed k
    → k.is_thread t ≡ false
    → (k' : Kernel) × (thread_create k (some t) ≡ ok (some t, k')) × Created k t k'
unfolding thread_create started
thread_create_lem k t w h = (
  started k t,
  rw
      (thread_unblock_lem
        (record k {
          is_thread = update k.is_thread t true;
          status = update k.status t blocked;
          code = update k.code t own;
        })
        t (ground arith) (ground arith))
      refl,
  record {
    wellformed = started-IsWellformed k t w h;
    alive = ground arith;
    same_current = refl;
    same_code = refl;
    same_semas = refl;
    same_holder = refl;
    in_turn = goes_on (t ∷ []) refl refl;
    stays = λ p u e c m. ground (arith, m, mem-snoc u k.ready_list t);
    same_awake = λ p e. started-awake k t p w h e;
  },
)
