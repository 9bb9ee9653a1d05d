-- ===== src/Threads/Synch/Down.antt =====
-- A round of the loop of `sema_down`: the thread is parked, or it takes the value and goes on.
use cs162_group13_clone.Base.{
  ℕ, ◌+◌, ◌-◌, ◌<◌, ◌==◌, ◌≡◌, refl, Bool, true, false, ◌&&◌, [], ◌∷◌, ◌++◌, ok, arith, Bool-cases,
  inl, inr, ==_iff, ne_of_==,
}
use cs162_group13_clone.Threads.Scheduler.{
  Kernel, Code, own, blocked, update, set_status, thread_block, is_blocked,
}
use cs162_group13_clone.Threads.Scheduler.Wellformed.{
  mem, waits_on, IsWellformed, IsStopped, bit_of, awake, is_awake, InTurn, mem-snoc, distinct-snoc,
}
use cs162_group13_clone.Threads.Scheduler.Switch.{Follows-InTurn, schedule_lem}
use cs162_group13_clone.Threads.Scheduler.Calls.{current-is_thread}
use cs162_group13_clone.Threads.Synch.{set_sema, set_code, down_round}
use cs162_group13_clone.Threads.Synch.Places.{
  set_code-IsWellformed, set_value-IsWellformed, waits_on_unique, waits_on-not_idle,
}

-- The current thread at the end of the waiters of s, and no longer running.
abbrev parking : Kernel → ℕ → Kernel
parking k s =
    set_status
      (set_sema k s (record (k.semas s) { waiters = (k.semas s).waiters ++ k.current ∷ [] }))
      k.current blocked

not_yet_waiting : (k : Kernel) (s : ℕ) → IsWellformed k → mem k.current (k.semas s).waiters ≡ false
not_yet_waiting k s w = ground (arith, w.waiting_iff s k.current, w.running_iff k.current)

parking-waiting_iff :
    (k : Kernel) (s i t : ℕ)
    → IsWellformed k
    → waits_on s (k.code k.current) ≡ true
    → mem t ((parking k s).semas i).waiters
      ≡ (k.is_thread t && is_blocked ((parking k s).status t) && waits_on i (k.code t))
parking-waiting_iff k s i t w h = elim (Bool-cases (i == s)) [
  | inl e ↦
      let e' = (==_iff i s).0 e in
      ground (
        arith,
        w.waiting_iff i t,
        w.running_iff t,
        w.running_iff k.current,
        mem-snoc t (k.semas s).waiters k.current,
      )
  | inr e ↦
      ground (arith, w.waiting_iff i t, w.running_iff t, waits_on_unique s i (k.code k.current) h e)
]

parking-IsStopped :
    (k : Kernel) (s : ℕ)
    → IsWellformed k
    → waits_on s (k.code k.current) ≡ true
    → IsStopped (parking k s)
parking-IsStopped k s w h = record {
  running_iff = λ t. ground (arith, w.running_iff t);
  ready_iff = λ t. ground (arith, w.ready_iff t, w.running_iff t);
  waiting_iff = λ i t. parking-waiting_iff k s i t w h;
  ready_distinct = w.ready_distinct;
  waiting_distinct = λ i. ground (
    arith,
    w.waiting_distinct i,
    distinct-snoc (k.semas s).waiters k.current (not_yet_waiting k s w) (w.waiting_distinct s),
  );
  idle_alive = ground (arith, w.idle_alive, waits_on-not_idle k s w h);
  idle_own = w.idle_own;
}

-- What a round of the loop on s comes to. `after` is where the caller goes on.
pub data Downed (k : Kernel) (s : ℕ) (after : Code) (k' : Kernel) : Type 0 where
  parked :
      (k.semas s).value ≡ 0
      → IsWellformed k'
      → k'.semas
        ≡ update k.semas s (record (k.semas s) { waiters = (k.semas s).waiters ++ k.current ∷ [] })
      → k'.code ≡ k.code
      → k'.holder ≡ k.holder
      → ((p : Code → Bool) → p own ≡ false → awake p k' + bit_of (p (k.code k.current)) ≡ awake p k)
      → ((t : ℕ) → (t == k.current) ≡ false → is_awake k t ≡ true → is_awake k' t ≡ true)
      → InTurn k.ready_list k.idle_thread k.current k'.current k'.ready_list
      → Downed k s after k'
  went_on :
      0 < (k.semas s).value
      → IsWellformed k'
      → k' ≡ set_code (set_sema k s (record (k.semas s) { value = (k.semas s).value - 1 })) after
      → Downed k s after k'

-- A round of the loop of `sema_down`, by the current thread of a well-formed state, does not panic
-- and keeps the state well-formed: at value 0 the thread joins the end of the waiters and
-- another runs, and at another value it takes one and goes on.
pub down_round_lem :
    (k : Kernel) (s : ℕ) (after : Code)
    → IsWellformed k
    → waits_on s (k.code k.current) ≡ true
    → (k' : Kernel) × (down_round k s after ≡ ok k') × Downed k s after k'
unfolding down_round thread_block
down_round_lem k s after w h = elim (Bool-cases ((k.semas s).value == 0)) [
  | inl e ↦
      let (k', q, x) =
        schedule_lem (parking k s) (parking-IsStopped k s w h) (current-is_thread k w) in
      (
        k',
        rw e q,
        parked ((==_iff _ 0).0 e) x.wellformed x.same_semas x.same_code x.same_holder
            (λ p g. omega (arith, x.total p g)) (λ t n m. x.keeps t (ground (arith, n, m)))
            (Follows-InTurn x.order),
      )
  | inr e ↦
      let v = (k.semas s).value - 1 in
      (
        _,
        rw e refl,
        went_on (omega (arith, ne_of_== _ 0 e))
            (set_code-IsWellformed (set_sema k s (record (k.semas s) { value = v })) after
              (set_value-IsWellformed k s v w) (waits_on-not_idle k s w h))
            refl,
      )
]
