-- ===== src/Threads/Synch/Invariant/Ups.antt =====
-- `sema_up` keeps the invariant of semaphores and locks, of a semaphore or as the end of
-- `lock_release`.
use mathlib.Core.Path.{subst}
use cs162_group13_clone.Base.{
  ℕ, ◌+◌, ◌%◌, ◌^◌, ◌≤◌, ◌==◌, ◌≡◌, true, refl, sym, ◌⊎◌, inl, inr, Bool, false, [], arith,
  Bool-cases, ==_iff, if◌then◌else◌,
}
use cs162_group13_clone.Threads.Scheduler.{Kernel, own, releasing}
use cs162_group13_clone.Threads.Scheduler.Wellformed.{
  waits_on, IsWellformed, awake, is_awake, mem-snoc, count-snoc,
}
use cs162_group13_clone.Threads.Synch.{set_code}
use cs162_group13_clone.Threads.Synch.Places.{
  passed, set_code-awake, waits_on_unique, waits_on-not_passed,
}
use cs162_group13_clone.Threads.Synch.Up.{Upped, none_waits, woken}
use cs162_group13_clone.Threads.Synch.Invariant.{IsSound}

-- The first part of the invariant for one semaphore.
abbrev pub NoLostWakeup : Kernel → ℕ → Type 0
NoLostWakeup k i = ((k.semas i).waiters ≡ []) ⊎ ((k.semas i).value ≤ awake (waits_on i) k)

pub up-NoLostWakeup :
    (k : Kernel) (s : ℕ) {k' : Kernel} (i : ℕ) → NoLostWakeup k i → Upped k s k' → NoLostWakeup k' i
up-NoLostWakeup k s i v (none_waits e q) =
    subst (λ x. NoLostWakeup x i) (sym q)
      (elim (Bool-cases (i == s)) [
        | inl c ↦ let c' = (==_iff i s).0 c in inl (ground (arith, e))
        | inr c ↦ ground (arith, v)
      ])
up-NoLostWakeup k s i v (woken t ts e h q) =
    subst (λ x. NoLostWakeup x i) (sym q)
      (elim (Bool-cases (i == s)) [
        | inl c ↦
            let c' = (==_iff i s).0 c in
            ground (arith, e, v, h, count-snoc (waits_on s) k.code k.ready_list t)
        | inr c ↦ ground (
          arith,
          v,
          waits_on_unique s i (k.code t) h c,
          count-snoc (waits_on i) k.code k.ready_list t,
        )
      ])

-- What the second part of the invariant is made of.
pub record Kept (k : Kernel) (s : ℕ) (k' : Kernel) : Type 0 where
  pub same_code : k'.code ≡ k.code
  pub stays : (t : ℕ) → is_awake k t ≡ true → is_awake k' t ≡ true
  pub same_holder : k'.holder ≡ k.holder
  pub same_passed : (l : ℕ) → awake (passed l) k' ≡ awake (passed l) k
  pub value :
      (l : ℕ)
      → (k'.semas l).value
        ≡ (if l == s then ((k.semas s).value + 1) % 2 ^ 32 else (k.semas l).value)

pub up-Kept : (k : Kernel) (s : ℕ) {k' : Kernel} → Upped k s k' → Kept k s k'
up-Kept k s (none_waits e q) = rw q record {
  same_code = refl;
  stays = λ t m. m;
  same_holder = refl;
  same_passed = λ l. refl;
  value = λ l. ground arith;
}
up-Kept k s (woken t ts e h q) = rw q record {
  same_code = refl;
  stays = λ u m. ground (arith, m, mem-snoc u k.ready_list t);
  same_holder = refl;
  same_passed = λ l.
      ground
        (arith, waits_on-not_passed s l (k.code t) h, count-snoc (passed l) k.code k.ready_list t);
  value = λ l. ground arith;
}

pub up-IsSound :
    (is_lock : ℕ → Bool) (k : Kernel) (s : ℕ) {k' : Kernel}
    → IsSound is_lock k
    → is_lock s ≡ false
    → IsWellformed k'
    → Upped k s k'
    → IsSound is_lock k'
up-IsSound is_lock k s v h w u =
    let x = up-Kept k s u in
    record {
      wellformed = w;
      no_lost_wakeup = λ i. up-NoLostWakeup k s i (v.no_lost_wakeup i) u;
      kinds = λ t. rw x.same_code (v.kinds t);
      passed_awake = λ l t p. x.stays t (v.passed_awake l t (rw x.same_code at p));
      exclusive = λ l q.
          rw x.same_holder (ground (arith, h, q, x.value l, x.same_passed l, v.exclusive l q));
    }

-- The code of the thread that releases s becomes its own, and then s is upped.
pub release-IsSound :
    (is_lock : ℕ → Bool) (k : Kernel) (s : ℕ) {k' : Kernel}
    → IsSound is_lock k
    → k.code k.current ≡ releasing s
    → IsWellformed k'
    → Upped (set_code k own) s k'
    → IsSound is_lock k'
release-IsSound is_lock k s v c w u =
    let x = up-Kept (set_code k own) s u in
    record {
      wellformed = w;
      no_lost_wakeup = λ i.
          up-NoLostWakeup (set_code k own) s i
            (ground (arith, c, v.no_lost_wakeup i, set_code-awake (waits_on i) k own v.wellformed))
            u;
      kinds = λ t. rw x.same_code (ground (arith, v.kinds t));
      passed_awake = λ l t p.
          let p' = rw x.same_code at p in x.stays t (ground (arith, p', v.passed_awake l t));
      exclusive = λ l q. rw x.same_holder (
          ground (
            arith,
            c,
            x.value l,
            x.same_passed l,
            v.exclusive l q,
            set_code-awake (passed l) k own v.wellformed,
          ));
    }
