-- ===== src/Programs/Balanced.antt =====
-- Programs that pair each lock with an unlock.
pub mod Replies
pub mod Follow
pub mod Succeed
use embd_lab.Prelude.{
  ℕ, ℤ, pos, ◌≡◌, ◌≢◌, ◌≤◌, ◌⊎◌, inl, inr, refl, Bool, true, false, Option, none, some, arith, ◌==◌,
  if◌then◌else◌, update, Bool-cases, ap, ◌∙◌,
}
use embd_lab.Kernel.{Task, Kernel, os_max_tasks}
use embd_lab.Sched.{Addresses, allocate_tasks}
use embd_lab.Sched.Start.{IsQuiet, allocate_tasks_mutex}
use embd_lab.Syscall.{returned}
use embd_lab.Mutex.{mutex_lock_syscall, mutex_lock_resume, mutex_unlock_syscall}
use embd_lab.WellFormed.Lock.{IsCreated}
use embd_lab.System.{System, user, in_lock, is_zero, claim, IsCaller, Reach, here}
use embd_lab.System.Claims.{
  LockOutcome, UnlockOutcome, deadlocks, succeeds, waits, unlocks, refuses, lock_decided,
  unlock_decided,
}
use embd_lab.System.Created.{Reach-IsCreated}
use embd_lab.System.Safety.{boot, boot-Inv, reached, resumed_lock_holds, mutual_exclusion}
use embd_lab.Proc.{event_wait_syscall}
use embd_lab.Programs.{is_negative}
use embd_lab.Programs.Machine as Machine
use embd_lab.Programs.Machine.{
  Request, mutex_lock, mutex_unlock, wait_event, work, Program, Config, running, Asks, Run, Runs,
  begins, then_runs, Runs-Reach,
}

-- What a task holds after a request has been granted.
abbrev pub held_after : Request → (ℕ → Bool) → ℕ → Bool
held_after (mutex_lock m) held i = if m == i then true else held i
held_after (mutex_unlock m) held i = if m == i then false else held i
held_after (wait_event dev) held i = held i
held_after work held i = held i

abbrev pub is_mutex_call : Request → Bool
is_mutex_call (mutex_lock m) = true
is_mutex_call (mutex_unlock m) = true
is_mutex_call (wait_event dev) = false
is_mutex_call work = false

-- What the kernel returns: 0 to a mutex call, and no negative number.
pub record IsGranted (request : Request) (r : ℤ) : Type 0 where
  pub zero_back : is_mutex_call request ≡ true → r ≡ pos 0
  pub not_negative : is_negative r ≡ false

-- `held t p`: the mutexes that task `t` holds at point `p`. As long as its calls are granted, the task
-- stays at the points of `possible`, locks only mutexes of `uses` that it does not hold, and unlocks only
-- what it holds.
pub record IsBalanced {P G : Type 0} (program : Program P G) (held : ℕ → P → ℕ → Bool)
    (possible : ℕ → P → Bool) (uses : ℕ → Bool) : Type 0 where
  pub locks :
      (t : ℕ) (p : P) (m : ℕ)
      → possible t p ≡ true
      → program.request t p ≡ mutex_lock m
      → (held t p m ≡ false) × (uses m ≡ true)
  pub unlocks :
      (t : ℕ) (p : P) (m : ℕ)
      → possible t p ≡ true
      → program.request t p ≡ mutex_unlock m
      → held t p m ≡ true
  pub resumes :
      (t : ℕ) (p : P) (r : ℤ) (g : G)
      → possible t p ≡ true
      → IsGranted (program.request t p) r
      → (possible t (program.resume t p r g).0 ≡ true)
        × ((i : ℕ)
            → held t (program.resume t p r g).0 i ≡ held_after (program.request t p) (held t p) i)
  pub steps :
      (t : ℕ) (p : P) (g : G)
      → possible t p ≡ true
      → program.request t p ≡ work
      → (possible t (program.step t p g).0 ≡ true)
        × ((i : ℕ) → held t (program.step t p g).0 i ≡ held t p i)

module _ {P G : Type 0} (program : Program P G) (held : ℕ → P → ℕ → Bool) (possible : ℕ → P → Bool)
    (uses : ℕ → Bool) where
  -- The claims are what the tasks hold at their points, and replies to mutex calls are 0.
  pub record Matches (c : Config P G) : Type 0 where
    pub silent : (t i : ℕ) → c.replies t ≡ none → c.sys.claims t i ≡ held t (c.at t) i
    pub replied :
        (t i : ℕ) (r : ℤ)
        → c.replies t ≡ some r
        → c.sys.claims t i ≡ held_after (program.request t (c.at t)) (held t (c.at t)) i
    pub success : (t : ℕ) (r : ℤ) → c.replies t ≡ some r → IsGranted (program.request t (c.at t)) r
    pub reached_possible : (t : ℕ) → possible t (c.at t) ≡ true
    pub inside :
        (t m : ℕ)
        → c.sys.pending t ≡ in_lock m
        → (program.request t (c.at t) ≡ mutex_lock m) × (c.replies t ≡ none)
