-- ===== src/Threads/Synch/Invariant/Rounds.antt =====
-- The steps that a thread takes from its place keep the invariant of semaphores and locks.
use cs162_group13_clone.Base.{
  ℕ, ◌+◌, ◌-◌, ◌≤◌, ◌<◌, ◌==◌, ◌≡◌, refl, ap, ◌∙◌, ◌⊎◌, inl, inr, Bool, true, false, [], ◌∷◌, ◌++◌,
  arith, Bool-cases, ==_iff,
}
use cs162_group13_clone.Threads.Scheduler.{Kernel, Code, own, taken, update}
use cs162_group13_clone.Threads.Scheduler.Wellformed.{
  waits_on, IsWellformed, awake, is_awake, bit_of,
}
use cs162_group13_clone.Threads.Synch.{set_sema, set_code}
use cs162_group13_clone.Threads.Synch.Places.{
  passed, set_code-awake, waits_on_unique, waits_on-not_passed, set_value-IsWellformed,
}
use cs162_group13_clone.Threads.Synch.Down.{Downed, parked, went_on}
use cs162_group13_clone.Threads.Synch.Invariant.{held, fits, IsSound}

-- Where a thread goes on after the loop: in code of its own, or about to hold the lock.
pub data After (is_lock : ℕ → Bool) (s : ℕ) (after : Code) : Type 0 where
  own_code : is_lock s ≡ false → after ≡ own → After is_lock s after
  holding : is_lock s ≡ true → after ≡ taken s → After is_lock s after

pub After-waits_on :
    {is_lock : ℕ → Bool} {s : ℕ} {after : Code} (i : ℕ)
    → After is_lock s after
    → waits_on i after ≡ false
After-waits_on i (own_code h e) = ap (waits_on i) e
After-waits_on i (holding h e) = ap (waits_on i) e

parked-IsSound :
    (is_lock : ℕ → Bool) (k : Kernel) (s : ℕ) (after : Code) (k' : Kernel)
    → IsSound is_lock k
    → waits_on s (k.code k.current) ≡ true
    → (k.semas s).value ≡ 0
    → IsWellformed k'
    → k'.semas
      ≡ update k.semas s (record (k.semas s) { waiters = (k.semas s).waiters ++ k.current ∷ [] })
    → k'.code ≡ k.code
    → k'.holder ≡ k.holder
    → ((p : Code → Bool) → p own ≡ false → awake p k' + bit_of (p (k.code k.current)) ≡ awake p k)
    → ((t : ℕ) → (t == k.current) ≡ false → is_awake k t ≡ true → is_awake k' t ≡ true)
    → IsSound is_lock k'
parked-IsSound is_lock k s after k' v h z w es ec eh total stays = record {
  wellformed = w;
  no_lost_wakeup = λ i. elim (Bool-cases (i == s)) [
    | inl e ↦ inr (rw (es, e, z) (omega arith))
    | inr e ↦
        let u = waits_on_unique s i (k.code k.current) h e in
        elim (v.no_lost_wakeup i) [
          | inl none_waits ↦ inl (rw (es, e) none_waits)
          | inr le ↦ inr (rw (es, e) (omega (arith, total (waits_on i) refl, ap bit_of u)))
        ]
  ];
  kinds = λ t. rw ec (v.kinds t);
  passed_awake = λ l t p.
      let p' = rw ec at p in
      stays t (ground (arith, p', waits_on-not_passed s l (k.code k.current) h))
        (v.passed_awake l t p');
  exclusive = λ l q.
      let u = waits_on-not_passed s l (k.code k.current) h in
      rw (es, eh) (ground (arith, v.exclusive l q, total (passed l) refl, u));
}

-- The state after a thread takes one from the value of s and goes on.
abbrev going_on : Kernel → ℕ → Code → Kernel
going_on k s after =
    set_code (set_sema k s (record (k.semas s) { value = (k.semas s).value - 1 })) after

going_on-awake :
    (k : Kernel) (s : ℕ) (after : Code) (p : Code → Bool)
    → IsWellformed k
    → awake p (going_on k s after) + bit_of (p (k.code k.current)) ≡ awake p k + bit_of (p after)
going_on-awake k s after p w =
    set_code-awake p (set_sema k s (record (k.semas s) { value = (k.semas s).value - 1 })) after
      (set_value-IsWellformed k s ((k.semas s).value - 1) w)

module _ (is_lock : ℕ → Bool) (k : Kernel) (s : ℕ) (after : Code) (v : IsSound is_lock k)
    (h : waits_on s (k.code k.current) ≡ true) (a : After is_lock s after)
    (z : 0 < (k.semas s).value) where
  going_on-no_lost :
      (i : ℕ)
      → (((going_on k s after).semas i).waiters ≡ [])
        ⊎ (((going_on k s after).semas i).value ≤ awake (waits_on i) (going_on k s after))
  going_on-no_lost i = elim (Bool-cases (i == s)) [
    | inl e ↦
        let e' = (==_iff i s).0 e in
        ground (
          arith,
          e',
          v.no_lost_wakeup s,
          going_on-awake k s after (waits_on i) v.wellformed,
          After-waits_on i a,
        )
    | inr e ↦ ground (
      arith,
      v.no_lost_wakeup i,
      going_on-awake k s after (waits_on i) v.wellformed,
      After-waits_on i a,
      waits_on_unique s i (k.code k.current) h e,
    )
  ]

  going_on-exclusive :
      (l : ℕ)
      → is_lock l ≡ true
      → ((going_on k s after).semas l).value
          + held (k.holder l)
          + awake (passed l) (going_on k s after)
        ≡ 1
  going_on-exclusive l q = by_place a
    where
      by_place :
          After is_lock s after
          → ((going_on k s after).semas l).value
              + held (k.holder l)
              + awake (passed l) (going_on k s after)
            ≡ 1
      by_place (own_code b e) = ground (
        arith,
        b,
        q,
        ap (passed l) e,
        v.exclusive l q,
        going_on-awake k s after (passed l) v.wellformed,
        waits_on-not_passed s l (k.code k.current) h,
      )
      by_place (holding b e) = ground (
        arith,
        ap (passed l) e,
        v.exclusive l q,
        going_on-awake k s after (passed l) v.wellformed,
        waits_on-not_passed s l (k.code k.current) h,
      )

fits-After :
    {is_lock : ℕ → Bool} {s : ℕ} {after : Code} → After is_lock s after → fits is_lock after ≡ true
fits-After {is_lock} (own_code h e) = ap (fits is_lock) e
fits-After {is_lock} (holding h e) = ap (fits is_lock) e ∙ h

-- A round of the loop keeps the invariant.
pub down-IsSound :
    (is_lock : ℕ → Bool) (k : Kernel) (s : ℕ) (after : Code) {k' : Kernel}
    → IsSound is_lock k
    → waits_on s (k.code k.current) ≡ true
    → After is_lock s after
    → Downed k s after k'
    → IsSound is_lock k'
down-IsSound is_lock k s after v h a (parked z w es ec eh total stays turn) =
    parked-IsSound is_lock k s after _ v h z w es ec eh total stays
down-IsSound is_lock k s after v h a (went_on z w e) = rw e record {
  wellformed = rw e at w;
  no_lost_wakeup = going_on-no_lost is_lock k s after v h a z;
  kinds = λ t. ground (arith, v.kinds t, fits-After a);
  passed_awake = λ l t p. ground (arith, p, v.passed_awake l t);
  exclusive = going_on-exclusive is_lock k s after v h a z;
}
