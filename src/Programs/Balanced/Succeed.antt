-- ===== src/Programs/Balanced/Succeed.antt =====
-- In a balanced program the mutex calls succeed, and exclude one another.
use embd_lab.Prelude.{
  ℕ, ℤ, pos, ◌≡◌, ◌≢◌, ◌≤◌, refl, Bool, true, false, Option, none, some, arith, ◌∙◌,
}
use embd_lab.Kernel.{Task, Kernel, os_max_tasks}
use embd_lab.Sched.{Addresses}
use embd_lab.Sched.Start.{IsQuiet}
use embd_lab.WellFormed.Lock.{IsCreated}
use embd_lab.System.{here}
use embd_lab.System.Safety.{boot, mutual_exclusion}
use embd_lab.Programs.Machine.{
  Request, mutex_lock, mutex_unlock, wait_event, work, Program, Config, Runs, Runs-Reach,
}
use embd_lab.Programs.Balanced.{is_mutex_call, IsBalanced, Matches}
use embd_lab.Programs.Balanced.Follow.{Runs-Matches}

module _ {P G : Type 0} (program : Program P G) (held : ℕ → P → ℕ → Bool) (possible : ℕ → P → Bool)
    (uses : ℕ → Bool) where
  abbrev pub Matching : Config P G → Type 0
  Matching = Matches program held possible uses

  module _ (balanced : IsBalanced program held possible uses) (a : Addresses) (tasks : ℕ → Task)
      (n : ℕ) (k : Kernel) (quiet : IsQuiet k) (few : n ≤ os_max_tasks)
      (created : (m : ℕ) → uses m ≡ true → IsCreated k m) where
    module _ (at : ℕ → P) (g : G) (empty_handed : (t i : ℕ) → held t (at t) i ≡ false)
        (at_start : (t : ℕ) → possible t (at t) ≡ true) where
      -- The first task starts, and no task holds a mutex.
      abbrev pub balanced_start : Config P G
      balanced_start = record { sys = boot a tasks n k; at = at; replies = λ _. none; globals = g }

      pub start-Matches : {c : Config P G} → Runs program balanced_start c → Matching c
      start-Matches =
          Runs-Matches program held possible uses balanced a tasks n k quiet few created here
            (record {
              silent = λ t i e. ground (arith, empty_handed t i);
              replied = λ t i r e. absurd (ground arith);
              success = λ t r e. absurd (ground arith);
              reached_possible = at_start;
              inside = λ t m e. absurd (ground arith);
            })

      -- Where at most 64 tasks start from a state in which no task sleeps and no mutex is locked,
      -- each of them holding nothing, and where each task, as long as its calls are granted, locks
      -- only created mutexes that it does not hold and unlocks only what it holds, no call to lock
      -- or unlock fails, however the tasks and the timer interrupt one another: what the kernel
      -- returns to such a call is always 0.
      pub calls_succeed :
          {c : Config P G} (t : ℕ) (r : ℤ)
          → Runs program balanced_start c
          → c.replies t ≡ some r
          → is_mutex_call (program.request t (c.at t)) ≡ true
          → r ≡ pos 0
      calls_succeed t r runs e call = ((start-Matches runs).success t r e).zero_back call

      -- Such a program stays at the points at which it can be when its calls are granted.
      pub stays_possible :
          {c : Config P G} (t : ℕ) → Runs program balanced_start c → possible t (c.at t) ≡ true
      stays_possible t runs = (start-Matches runs).reached_possible t

      holds_claim :
          {c : Config P G} (t m : ℕ)
          → Runs program balanced_start c
          → held t (c.at t) m ≡ true
          → program.request t (c.at t) ≢ mutex_unlock m
          → c.sys.claims t m ≡ true
      holds_claim {c} t m runs holding stays =
          let h = start-Matches runs in
          by_reply h (c.replies t) refl (program.request t (c.at t)) refl
        where
          by_reply :
              Matching c
              → (reply : Option ℤ) → c.replies t ≡ reply
              → (request : Request) → program.request t (c.at t) ≡ request
              → c.sys.claims t m ≡ true
          by_reply h none e request asked = h.silent t m e ∙ holding
          by_reply h (some r) e (mutex_lock i) asked = ground (arith, h.replied t m r)
          by_reply h (some r) e (mutex_unlock i) asked = ground (arith, h.replied t m r)
          by_reply h (some r) e (wait_event dev) asked = ground (arith, h.replied t m r)
          by_reply h (some r) e work asked = ground (arith, h.replied t m r)

      -- In such programs two tasks that hold one mutex, and are not about to unlock it, are one
      -- and the same.
      pub balanced_exclusive :
          {c : Config P G} (m t u : ℕ)
          → Runs program balanced_start c
          → held t (c.at t) m ≡ true
          → program.request t (c.at t) ≢ mutex_unlock m
          → held u (c.at u) m ≡ true
          → program.request u (c.at u) ≢ mutex_unlock m
          → t ≡ u
      balanced_exclusive m t u runs ht st hu su =
          mutual_exclusion a tasks n k quiet few (Runs-Reach program here runs) m t u
            (holds_claim t m runs ht st) (holds_claim u m runs hu su)
