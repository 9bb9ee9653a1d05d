-- ===== src/Threads/Synch/Up.antt =====
-- `sema_up` wakes the first waiter, if any, and raises the value.
use mathlib.Core.Path.{fun_ext}
use cs162_group13_clone.Base.{
  ℕ, ◌+◌, ◌%◌, ◌^◌, ◌==◌, ◌≡◌, refl, true, ◌&&◌, List, [], ◌∷◌, ◌++◌, ok, arith, Bool-cases, inl,
  inr, ==_iff,
}
use cs162_group13_clone.Threads.Scheduler.{Kernel, Sema, ready, update, set_status, is_blocked}
use cs162_group13_clone.Threads.Scheduler.Wellformed.{
  mem, waits_on, IsWellformed, mem-snoc, distinct-snoc,
}
use cs162_group13_clone.Threads.Scheduler.Calls.{thread_unblock_lem}
use cs162_group13_clone.Threads.Synch.Places.{waits_on_unique, set_value-IsWellformed}
use cs162_group13_clone.Threads.Synch.{set_sema, wake_first, sema_up}

-- The semaphores with the value of s raised, and these waiters.
abbrev pub raised : Kernel → ℕ → List ℕ → ℕ → Sema
raised k s ts = update k.semas s (record { value = ((k.semas s).value + 1) % 2 ^ 32; waiters = ts })

abbrev waking : Kernel → ℕ → ℕ → List ℕ → Kernel
waking k s t ts =
    set_status (record k { ready_list = k.ready_list ++ t ∷ []; semas = raised k s ts }) t ready

first-waiter :
    (k : Kernel) (s t : ℕ) (ts : List ℕ)
    → IsWellformed k
    → (k.semas s).waiters ≡ t ∷ ts
    → (k.is_thread t && is_blocked (k.status t) && waits_on s (k.code t)) ≡ true
first-waiter k s t ts w e = ground (arith, e, w.waiting_iff s t)

waking-waiting_iff :
    (k : Kernel) (s t : ℕ) (ts : List ℕ) (i u : ℕ)
    → IsWellformed k
    → (k.semas s).waiters ≡ t ∷ ts
    → mem u ((waking k s t ts).semas i).waiters
      ≡ (k.is_thread u && is_blocked ((waking k s t ts).status u) && waits_on i (k.code u))
waking-waiting_iff k s t ts i u w e = elim (Bool-cases (i == s)) [
  | inl q ↦ let q' = (==_iff i s).0 q in ground (arith, e, w.waiting_iff s u, w.waiting_distinct s)
  | inr q ↦
      ground (arith, w.waiting_iff i u, first-waiter k s t ts w e, waits_on_unique s i (k.code t))
]

waking-IsWellformed :
    (k : Kernel) (s t : ℕ) (ts : List ℕ)
    → IsWellformed k
    → (k.semas s).waiters ≡ t ∷ ts
    → IsWellformed (waking k s t ts)
waking-IsWellformed k s t ts w e = record {
  running_iff = λ u. ground (arith, w.running_iff u, first-waiter k s t ts w e);
  ready_iff = λ u.
      ground
        (arith, w.ready_iff u, mem-snoc u k.ready_list t, first-waiter k s t ts w e, w.idle_own);
  waiting_iff = λ i u. waking-waiting_iff k s t ts i u w e;
  ready_distinct =
      distinct-snoc k.ready_list t (ground (arith, w.ready_iff t, first-waiter k s t ts w e))
        w.ready_distinct;
  waiting_distinct = λ i. ground (arith, e, w.waiting_distinct i, w.waiting_distinct s);
  idle_alive = ground (arith, w.idle_alive);
  idle_own = w.idle_own;
}

-- What `sema_up` comes to: the value is raised, and the first waiter, if any, is ready to run.
pub data Upped (k : Kernel) (s : ℕ) (k' : Kernel) : Type 0 where
  none_waits :
      (k.semas s).waiters ≡ []
      → k' ≡ record k { semas = raised k s (k.semas s).waiters }
      → Upped k s k'
  woken :
      (t : ℕ) (ts : List ℕ)
      → (k.semas s).waiters ≡ t ∷ ts
      → waits_on s (k.code t) ≡ true
      → k' ≡ waking k s t ts
      → Upped k s k'

update_self : (f : ℕ → Sema) (s : ℕ) (v : Sema) → update f s v s ≡ v
update_self f s v = ground arith

update-update : (f : ℕ → Sema) (s : ℕ) (u v : Sema) → update (update f s u) s v ≡ update f s v
update-update f s u v = fun_ext (λ i. ground arith)

wake_first-none :
    (k : Kernel) (s : ℕ) → (k.semas s).waiters ≡ [] → wake_first k s (k.semas s).waiters ≡ ok k
unfolding wake_first
wake_first-none k s e = rw e refl

wake_first-some :
    (k : Kernel) (s t : ℕ) (ts : List ℕ)
    → IsWellformed k
    → (k.semas s).waiters ≡ t ∷ ts
    → wake_first k s (k.semas s).waiters
      ≡ ok (
          set_status
            (record k {
              ready_list = k.ready_list ++ t ∷ [];
              semas = update k.semas s (record (k.semas s) { waiters = ts });
            })
            t
            ready)
unfolding wake_first
wake_first-some k s t ts w e = rw e (
    thread_unblock_lem (set_sema k s (record (k.semas s) { waiters = ts })) t
      (ground (arith, first-waiter k s t ts w e)) (ground (arith, first-waiter k s t ts w e)))

-- `sema_up` in a well-formed state does not panic and keeps the state well-formed. It raises the value modulo 2^32, and if a
-- thread waits, exactly the one that has waited longest becomes ready and leaves the waiters.
pub sema_up_lem :
    (k : Kernel) (s : ℕ)
    → IsWellformed k
    → (k' : Kernel) × (sema_up k s ≡ ok k') × IsWellformed k' × Upped k s k'
unfolding sema_up
sema_up_lem k s w = of_waiters (k.semas s).waiters refl
  where
    of_waiters :
        (ws : List ℕ)
        → (k.semas s).waiters ≡ ws
        → (k' : Kernel) × (sema_up k s ≡ ok k') × IsWellformed k' × Upped k s k'
    of_waiters [] e = (
      record k { semas = raised k s (k.semas s).waiters },
      rw (wake_first-none k s e) refl,
      set_value-IsWellformed k s (((k.semas s).value + 1) % 2 ^ 32) w,
      none_waits e refl,
    )
    of_waiters (t ∷ ts) e = (
      waking k s t ts,
      rw
          (
            wake_first-some k s t ts w e,
            update_self k.semas s (record (k.semas s) { waiters = ts }),
            update-update k.semas s (record (k.semas s) { waiters = ts })
                (record { value = ((k.semas s).value + 1) % 2 ^ 32; waiters = ts }),
          )
          refl,
      waking-IsWellformed k s t ts w e,
      woken t ts e (ground (arith, first-waiter k s t ts w e)) refl,
    )
