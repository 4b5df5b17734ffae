-- ===== src/Programs/Cyclone.antt =====
-- tasks/cyclone/cyclone.c: a task that sleeps, prints the time and starts its task set anew. It is the
-- only task, so nothing but timer interrupts comes between its calls; `Timing` says how many.
pub mod Laps
pub mod Ends
use embd_lab.Prelude.{
  ℕ, zero, suc, ◌+◌, ◌*◌, ℤ, pos, Option, none, some, List, [], ◌∷◌, ◌++◌, ltb, if◌then◌else◌,
}
use embd_lab.Kernel.{Task, Kernel}
use embd_lab.Irq.{ticks}
use embd_lab.Time.{time_syscall, sleep_syscall}
use embd_lab.Sched.{Addresses}
use embd_lab.Proc.{Creation, rejected, crashed, begun, task_create_syscall}
use embd_lab.Programs.{Print, puts, printf, period_dev3}

-- `ITE`.
abbrev pub ite : ℕ
ite = 30

pub record Session : Type 0 where
  pub kernel : Kernel
  pub ct : ℕ
  pub errno : ℤ
  pub console : List Print

-- In the run of `fun1` with the value `ct`: the interrupts that have come when `sleep` starts (read 0)
-- and at each of its reads of the clock, and those between `sleep` and `time` and after `time`.
pub record Timing : Type 0 where
  pub arrived : (ct read : ℕ) → ℕ
  pub before_time : (ct : ℕ) → ℕ
  pub after_time : (ct : ℕ) → ℕ

abbrev pub prints : Session → List Print → Session
prints s ps = record s { console = s.console ++ ps }

-- The array `tasks`; what lies behind it is `rest`.
unfoldable pub cyclone_tasks : (address : ℕ) → (rest : ℕ → Task) → ℕ → Task
cyclone_tasks address rest zero = record {
  lambda = address;
  arg = 0;
  stack_pos = 0xa1000000;
  c = 1;
  t = period_dev3;
}
cyclone_tasks address rest (suc i) = rest i

-- How a run of `fun1` or of `main` ends: in its endless loop, with a new start of `fun1`, or by
-- returning. `stuck` is out of fuel or a crash.
pub data Ended : Type 0 where
  loops : Session → Ended
  starts : Session → Ended
  returns : Session → Ended
  stuck : Ended

-- The clock after a number of interrupts.
abbrev pub time_of : Option Kernel → ℕ
time_of none = 0
time_of (some k) = time_syscall k

-- `task_create` starts the task, or returns, and `message` is printed.
abbrev pub created : (message : List Print) → Creation → Session → Ended
created message (rejected r) s = returns (prints (record s { errno = r }) message)
created message crashed s = stuck
created message (begun tasks k) s = starts (record s { kernel = k })

-- After `n` interrupts.
abbrev pub interrupted : ℕ → Session → (Session → Ended) → Ended
interrupted n s next = elim (ticks n s.kernel) [
  | none ↦ stuck
  | some k ↦ next (record s { kernel = k })
]

module _ (reads : ℕ) (timing : Timing) (a : Addresses) (ptr address : ℕ) (rest : ℕ → Task) where
  -- The call of `task_create`.
  abbrev pub creates : Session → Ended
  creates s =
      created (puts "TASK SHOULD NEVER REACH HERE, FAIL XXXXXXXXXXXXXXXXX" ∷ [])
        (task_create_syscall a ptr (cyclone_tasks address rest) 1 s.kernel) s

  -- From the call of `time` on.
  abbrev pub prints_time : Session → Ended
  prints_time s =
      interrupted (timing.after_time s.ct)
        (prints s (printf "Time now is %lu\n" (time_syscall s.kernel ∷ []) ∷ [])) creates

  -- `sleep`, whose last read of the clock is the `i`-th.
  abbrev pub sleeps : Option ℕ → Session → Ended
  sleeps none s = stuck
  sleeps (some i) s = interrupted (timing.arrived s.ct i + timing.before_time s.ct) s prints_time

  -- `fun1`; `reads` bounds how often `sleep` reads the clock.
  unfoldable pub fun1 : Session → Ended
  unfolding cyclone_tasks
  fun1 s =
      let s₁ = record s { ct = s.ct + 1 } in
      if ltb ite s₁.ct
      then loops (prints s₁ (puts "Test ends!!" ∷ []))
      else sleeps
          (sleep_syscall reads (s₁.ct * 10)
            (λ i. time_of (ticks (timing.arrived s₁.ct i) s₁.kernel)))
          s₁

  -- What follows a start of `fun1`, with the number of starts that are followed.
  unfoldable pub laps : (n : ℕ) → Ended → Ended
  laps zero ended = ended
  laps (suc n) ended = elim ended [
    | starts s ↦ laps n (fun1 s)
    | loops s ↦ loops s
    | returns s ↦ returns s
    | stuck ↦ stuck
  ]

  unfoldable pub cyclone_main : Session → Ended
  unfolding cyclone_tasks
  cyclone_main s =
      let s₁ = prints (record s { ct = 0 }) (puts "Test begin" ∷ []) in
      created (puts "WTF!\n" ∷ [])
        (task_create_syscall a ptr (cyclone_tasks address rest) 1 s₁.kernel) s₁
