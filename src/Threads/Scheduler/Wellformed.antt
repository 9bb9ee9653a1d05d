-- ===== src/Threads/Scheduler/Wellformed.antt =====
-- The scheduler's invariant: the ready list and the waiters of each semaphore are the threads that
-- their status says, and one thread runs.
use cs162_group13_clone.Base.{
  ℕ, ◌+◌, ◌==◌, ◌≡◌, ap, refl, Bool, true, false, not, ◌&&◌, List, [], ◌∷◌, ◌++◌, arith,
}
pub use cs162_group13_clone.Base.{mem, distinct, mem-snoc, distinct-snoc}
use cs162_group13_clone.Threads.Scheduler.{
  Kernel, Code, own, in_down, in_acquire, taken, releasing, is_running, is_ready, is_blocked,
  is_dying, update,
}

-- Whether the code is the loop of `sema_down` on the semaphore.
abbrev pub waits_on : ℕ → Code → Bool
waits_on s own = false
waits_on s (in_down i) = i == s
waits_on s (in_acquire i) = i == s
waits_on s (taken i) = false
waits_on s (releasing i) = false

-- The threads with status running are those that `runs` says.
pub record Consistent (k : Kernel) (runs : ℕ → Bool) : Type 0 where
  pub running_iff : (t : ℕ) → (k.is_thread t && is_running (k.status t)) ≡ runs t
  pub ready_iff :
      (t : ℕ)
      → mem t k.ready_list ≡ (k.is_thread t && is_ready (k.status t) && not (t == k.idle_thread))
  pub waiting_iff :
      (s t : ℕ)
      → mem t (k.semas s).waiters
        ≡ (k.is_thread t && is_blocked (k.status t) && waits_on s (k.code t))
  pub ready_distinct : distinct k.ready_list ≡ true
  pub waiting_distinct : (s : ℕ) → distinct (k.semas s).waiters ≡ true
  pub idle_alive : (k.is_thread k.idle_thread && not (is_dying (k.status k.idle_thread))) ≡ true
  pub idle_own : k.code k.idle_thread ≡ own

-- Exactly one thread runs, the current one; the ready list has exactly the ready threads but the
-- idle one, and the waiters of a semaphore are exactly the threads that are blocked in its loop,
-- each of them once.
abbrev pub IsWellformed : Kernel → Type 0
IsWellformed k = Consistent k (λ t. t == k.current)

-- Between a change of the current thread's status and the switch, no thread runs.
abbrev pub IsStopped : Kernel → Type 0
IsStopped k = Consistent k (λ t. false)

abbrev pub bit_of : Bool → ℕ
bit_of true = 1
bit_of false = 0

-- How many of the threads stand at code with a property.
abbrev pub count : (Code → Bool) → (ℕ → Code) → List ℕ → ℕ
count p code [] = 0
count p code (t ∷ ts) = bit_of (p (code t)) + count p code ts

pub count-snoc :
    (p : Code → Bool) (code : ℕ → Code) (xs : List ℕ) (x : ℕ)
    → count p code (xs ++ x ∷ []) ≡ count p code xs + bit_of (p (code x))
count-snoc p code [] x = omega arith
count-snoc p code (y ∷ xs) x = omega (arith, count-snoc p code xs x)

pub count-update :
    (p : Code → Bool) (code : ℕ → Code) (xs : List ℕ) (x : ℕ) (c : Code)
    → mem x xs ≡ false
    → count p (update code x c) xs ≡ count p code xs
count-update p code [] x c h = refl
count-update p code (y ∷ xs) x c h = ground (arith, count-update p code xs x c (ground arith))

-- How the current thread cur and the ready list queue may change in one step: the thread goes on,
-- or it gives way to the thread that has waited longest, or, where no thread is ready, to the idle
-- one; and threads that become ready queue behind those that are.
pub data InTurn (queue : List ℕ) (idle cur cur' : ℕ) (queue' : List ℕ) : Type 0 where
  goes_on :
      (later : List ℕ) → cur' ≡ cur → queue' ≡ queue ++ later → InTurn queue idle cur cur' queue'
  gives_way : (later : List ℕ) → queue ++ later ≡ cur' ∷ queue' → InTurn queue idle cur cur' queue'
  idles : queue ≡ [] → cur' ≡ idle → queue' ≡ [] → InTurn queue idle cur cur' queue'

pub append-nil {ℓ} : {A : Type ℓ} (xs : List A) → xs ++ [] ≡ xs
append-nil [] = refl
append-nil (x ∷ xs) = ap (λ ys. x ∷ ys) (append-nil xs)

-- Whether a thread is running or ready, as the scheduler has it.
abbrev pub is_awake : Kernel → ℕ → Bool
is_awake k t = mem t (k.current ∷ k.ready_list)

-- How many of the threads that are running or ready stand at code with a property.
abbrev pub awake : (Code → Bool) → Kernel → ℕ
awake p k = count p k.code (k.current ∷ k.ready_list)
