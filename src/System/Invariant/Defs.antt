-- ===== src/System/Invariant/Defs.antt =====
-- The invariant of the transition system.
use embd_lab.Prelude.{ℕ, ℤ, ◌<◌, ◌≡◌, ◌≢◌, ◌⊎◌, true, some, List}
use embd_lab.Kernel.{Kernel, os_max_tasks, os_num_mutex}
use embd_lab.Syscall.{Outcome, returned, switched, fault}
use embd_lab.Sched.Start.{started}
use embd_lab.Waiting.{Home, absent, waits}
use embd_lab.WellFormed.{IsWellFormed}
use embd_lab.WellFormed.Lock.{IsCreated}
use embd_lab.System.{in_lock, System}

-- The kernel is well-formed, the `n` tasks and the idle task exist, a task with a claim on a mutex is
-- its holder, and a task inside `mutex_lock_syscall` sleeps in the mutex's queue or holds the mutex. The
-- other way round, a holder has a claim or is inside such a call, and so is who sleeps in a mutex's queue.
pub record Inv (n : ℕ) (s : System) : Type 0 where
  pub waiting : ℕ → List ℕ
  pub home : ℕ → Home
  pub wf : IsWellFormed s.kernel waiting home
  pub alive : (t : ℕ) → started n t ≡ true → home t ≢ absent
  pub claimed :
      (t m : ℕ)
      → s.claims t m ≡ true
      → IsCreated s.kernel m × ((s.kernel.gt_mutex m).p_holding_tcb ≡ some t)
  pub locking :
      (t m : ℕ)
      → t < os_max_tasks
      → s.pending t ≡ in_lock m
      → IsCreated s.kernel m × ((home t ≡ waits m) ⊎ ((s.kernel.gt_mutex m).p_holding_tcb ≡ some t))
  pub known :
      (t m : ℕ)
      → m < os_num_mutex
      → (s.kernel.gt_mutex m).p_holding_tcb ≡ some t
      → (s.claims t m ≡ true) ⊎ (s.pending t ≡ in_lock m)
  pub asleep :
      (t m : ℕ) → t < os_max_tasks → m < os_num_mutex → home t ≡ waits m → s.pending t ≡ in_lock m

-- `P` holds of what a handler returns, `Q` of the state in which it is switched out, and it is no fault.
abbrev pub Ends : (Kernel → ℤ → Type 0) → (Kernel → Type 0) → Outcome → Type 0
Ends P Q (returned k r) = P k r
Ends P Q (switched k) = Q k
Ends P Q fault = ⊥
