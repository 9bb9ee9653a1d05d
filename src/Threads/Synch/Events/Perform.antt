-- ===== src/Threads/Synch/Events/Perform.antt =====
-- Every event that is allowed keeps the invariant of semaphores and locks, and none panics.
use mathlib.Core.Path.{subst}
use cs162_group13_clone.Base.{
  ℕ, ltb, ◌==◌, ◌≡◌, refl, sym, ap, ◌∙◌, inl, inr, Bool, true, false, not, List, [], ◌∷◌, Outcome,
  ok, arith, Bool-cases, ltb→lt, ok-injective,
}
use cs162_group13_clone.Threads.Scheduler.{Kernel, Code, own, in_down, in_acquire, taken, releasing}
use cs162_group13_clone.Threads.Scheduler.Wellformed.{
  InTurn, goes_on, append-nil, waits_on, IsWellformed, count,
}
use cs162_group13_clone.Threads.Scheduler.Calls.{
  thread_yield_lem, thread_exit_lem, thread_create_lem, thread_block-idle,
}
use cs162_group13_clone.Threads.Synch.{
  set_code, down_round, sema_down, sema_try_down, lock_acquire, lock_try_acquire, lock_release,
  resume, lock_held_by_current_thread,
}
use cs162_group13_clone.Threads.Synch.Places.{passed, set_code-IsWellformed}
use cs162_group13_clone.Threads.Synch.Down.{Downed, parked, went_on, down_round_lem}
use cs162_group13_clone.Threads.Synch.Up.{Upped, none_waits, woken, sema_up_lem}
use cs162_group13_clone.Threads.Synch.Invariant.{IsSound}
use cs162_group13_clone.Threads.Synch.Invariant.Rounds.{After, own_code, holding, down-IsSound}
use cs162_group13_clone.Threads.Synch.Invariant.Ups.{up-IsSound, release-IsSound}
use cs162_group13_clone.Threads.Synch.Invariant.Moves.{
  enter-IsSound, take-IsSound, try_acquire-IsSound, hold-IsSound, unhold-IsSound,
  Rescheduled-IsSound, Created-IsSound,
}
use cs162_group13_clone.Threads.Synch.Events.{
  Event, go_on, preempt, idle_block, exit, create, down, try_down, up, acquire, try_acquire,
  release, perform, InOwnCode, Allowed, Booted, Reaches, boot, then_event,
}

not_idle :
    (k : Kernel) (l : ℕ)
    → IsWellformed k
    → passed l (k.code k.current) ≡ true
    → (k.current == k.idle_thread) ≡ false
not_idle k l w h = ground (arith, w.idle_own)

same_turn : (k : Kernel) → InTurn k.ready_list k.idle_thread k.current k.current k.ready_list
same_turn k = goes_on [] refl (sym (append-nil k.ready_list))

Downed-InTurn :
    {k : Kernel} {s : ℕ} {after : Code} {k' : Kernel}
    → Downed k s after k'
    → InTurn k.ready_list k.idle_thread k.current k'.current k'.ready_list
Downed-InTurn (parked z w es ec eh total stays turn) = turn
Downed-InTurn {k} (went_on z w e) = rw e (same_turn k)

Upped-InTurn :
    {k : Kernel} {s : ℕ} {k' : Kernel}
    → Upped k s k'
    → InTurn k.ready_list k.idle_thread k.current k'.current k'.ready_list
Upped-InTurn {k} (none_waits w e) = rw e (same_turn k)
Upped-InTurn (woken t ts w h e) = rw e (goes_on (t ∷ []) refl refl)

module _ (is_lock : ℕ → Bool) where
  -- A call that returns, in a state with the invariant, and with threads in turn.
  abbrev Returns : Kernel → Outcome Kernel → Type 0
  Returns k r =
      (k' : Kernel) × (r ≡ ok k')
      × IsSound is_lock k'
      × InTurn k.ready_list k.idle_thread k.current k'.current k'.ready_list

  round-Returns :
      (k : Kernel) (s : ℕ) (after : Code)
      → IsSound is_lock k
      → waits_on s (k.code k.current) ≡ true
      → After is_lock s after
      → Returns k (down_round k s after)
  round-Returns k s after v h a =
      let (k', e, x) = down_round_lem k s after v.wellformed h in
      (k', e, down-IsSound is_lock k s after v h a x, Downed-InTurn x)

  sema_down-Returns :
      (k : Kernel) (s : ℕ)
      → IsSound is_lock k
      → InOwnCode k
      → is_lock s ≡ false
      → Returns k (sema_down k s)
  unfolding sema_down
  sema_down-Returns k s v (h, c) f =
      round-Returns (set_code k (in_down s)) s own
        (enter-IsSound is_lock k (in_down s) v c h (ap not f) (λ l. refl)) (ground arith)
        (own_code f refl)

  lock_acquire-Returns :
      (k : Kernel) (l : ℕ)
      → IsSound is_lock k
      → InOwnCode k
      → is_lock l ≡ true
      → lock_held_by_current_thread k l ≡ false
      → Returns k (lock_acquire k l)
  unfolding lock_acquire
  lock_acquire-Returns k l v (h, c) f n =
      let (k', e, x, turn) =
        round-Returns (set_code k (in_acquire l)) l (taken l)
          (enter-IsSound is_lock k (in_acquire l) v c h f (λ i. refl)) (ground arith)
          (holding f refl) in
      (k', rw n e, x, turn)

  lock_release-Returns :
      (k : Kernel) (l : ℕ)
      → IsSound is_lock k
      → InOwnCode k
      → is_lock l ≡ true
      → lock_held_by_current_thread k l ≡ true
      → Returns k (lock_release k l)
  unfolding lock_release
  lock_release-Returns k l v (h, c) f n =
      (_, rw n refl, unhold-IsSound is_lock k l v c h f (ground (arith, n)), same_turn k)

  sema_try_down-Returns :
      (k : Kernel) (s : ℕ)
      → IsSound is_lock k
      → is_lock s ≡ false
      → Returns k (perform k (try_down s))
  unfolding perform sema_try_down
  sema_try_down-Returns k s v f = elim (Bool-cases (ltb 0 (k.semas s).value)) [
    | inl e ↦ (_, rw e refl, take-IsSound is_lock k s v f, same_turn k)
    | inr e ↦ (k, rw e refl, v, same_turn k)
  ]

  try_acquire-Returns :
      (k : Kernel) (l : ℕ)
      → IsSound is_lock k
      → InOwnCode k
      → is_lock l ≡ true
      → lock_held_by_current_thread k l ≡ false
      → Returns k (perform k (try_acquire l))
  unfolding perform lock_try_acquire sema_try_down
  try_acquire-Returns k l v (h, c) f n = elim (Bool-cases (ltb 0 (k.semas l).value)) [
    | inl e ↦ (
      _,
      rw (n, e) refl,
      try_acquire-IsSound is_lock k l v c h f (ltb→lt 0 (k.semas l).value e),
      same_turn k,
    )
    | inr e ↦ (k, rw (n, e) refl, v, same_turn k)
  ]

  resume-Returns :
      (k : Kernel) (c : Code) → IsSound is_lock k → k.code k.current ≡ c → Returns k (resume k c)
  unfolding resume
  resume-Returns k own v e = (k, refl, v, same_turn k)
  resume-Returns k (in_down s) v e =
      round-Returns k s own v (ground arith) (own_code (ground (arith, e, v.kinds k.current)) refl)
  resume-Returns k (in_acquire l) v e =
      round-Returns k l (taken l) v (ground arith)
        (holding (ground (arith, e, v.kinds k.current)) refl)
  resume-Returns k (taken l) v e = (
    _,
    refl,
    hold-IsSound is_lock k l v e (not_idle k l v.wellformed (ground arith)),
    same_turn k,
  )
  resume-Returns k (releasing l) v e =
      let w = set_code-IsWellformed k own v.wellformed (not_idle k l v.wellformed (ground arith)) in
      let (k', q, w', x) = sema_up_lem (set_code k own) l w in
      (k', q, release-IsSound is_lock k l v e w' x, Upped-InTurn x)

  -- An event that is allowed does not panic and keeps the invariant and the order of threads.
  pub perform-IsSound :
      (k : Kernel) (e : Event)
      → IsSound is_lock k
      → Allowed is_lock k e
      → (k' : Kernel) × (perform k e ≡ ok k')
        × IsSound is_lock k'
        × InTurn k.ready_list k.idle_thread k.current k'.current k'.ready_list
  unfolding perform
  perform-IsSound k go_on v a = resume-Returns k (k.code k.current) v refl
  perform-IsSound k preempt v a =
      let (k', e, x) = thread_yield_lem k v.wellformed in
      (k', e, Rescheduled-IsSound is_lock k k' v x, x.in_turn)
  perform-IsSound k idle_block v a =
      let (k', e, x) = thread_block-idle k v.wellformed a (ground (arith, v.wellformed.idle_own)) in
      (k', e, Rescheduled-IsSound is_lock k k' v x, x.in_turn)
  perform-IsSound k exit v a =
      let (k', e, x) = thread_exit_lem k v.wellformed a.0 a.1 in
      (k', e, Rescheduled-IsSound is_lock k k' v x, x.in_turn)
  perform-IsSound k (create t) v a =
      let (k', e, x) = thread_create_lem k t v.wellformed a in
      (k', rw e refl, Created-IsSound is_lock k t k' v x, x.in_turn)
  perform-IsSound k (down s) v a = sema_down-Returns k s v a.0 a.1
  perform-IsSound k (try_down s) v a = sema_try_down-Returns k s v a
  perform-IsSound k (up s) v a =
      let (k', e, w, x) = sema_up_lem k s v.wellformed in
      (k', e, up-IsSound is_lock k s v a w x, Upped-InTurn x)
  perform-IsSound k (acquire l) v a = lock_acquire-Returns k l v a.0 a.1 a.2
  perform-IsSound k (try_acquire l) v a = try_acquire-Returns k l v a.0 a.1 a.2
  perform-IsSound k (release l) v a = lock_release-Returns k l v a.0 a.1 a.2

  count-own :
      (p : Code → Bool) (code : ℕ → Code) (ts : List ℕ)
      → p own ≡ false
      → ((t : ℕ) → code t ≡ own)
      → count p code ts ≡ 0
  count-own p code [] h a = refl
  count-own p code (t ∷ ts) h a = ground (arith, ap p (a t), h, count-own p code ts h a)

  Booted-IsSound : (k : Kernel) → Booted is_lock k → IsSound is_lock k
  Booted-IsSound k b = record {
    wellformed = b.wellformed;
    no_lost_wakeup = λ s. inl (b.none_waits s);
    kinds = λ t. rw (b.own_code t) refl;
    passed_awake = λ l t p. ground (arith, p, b.own_code t);
    exclusive = λ l q. ground (
      arith,
      (b.free l q).0,
      (b.free l q).1,
      count-own (passed l) k.code (k.current ∷ k.ready_list) refl b.own_code,
    );
  }

  pub Reaches-IsSound : (k : Kernel) → Reaches is_lock k → IsSound is_lock k
  Reaches-IsSound k (boot _ b) = Booted-IsSound k b
  Reaches-IsSound k' (then_event k e _ r a q) =
      let (k'', q', v, turn) = perform-IsSound k e (Reaches-IsSound k r) a in
      subst (IsSound is_lock) (ok-injective (sym q' ∙ q)) v
