-- ===== src/System.antt =====
-- The kernel as a transition system: the running task makes a system call, continues in one that it was
-- switched out of, or is interrupted by the timer. A handler runs without interruption up to its
-- switch.
pub mod Invariant
pub mod Safety
pub mod Progress
pub mod Claims
pub mod Created
use embd_lab.Prelude.{
  ℕ, ℤ, pos, ◌≡◌, ◌≢◌, Bool, true, false, some, ◌==◌, ◌&&◌, if◌then◌else◌, update,
}
use embd_lab.Kernel.{Kernel, idle_prio}
use embd_lab.Syscall.{returned, switched}
use embd_lab.Mutex.{
  mutex_create_syscall, mutex_lock_syscall, mutex_lock_resume, mutex_unlock_syscall,
}
use embd_lab.Proc.{event_wait_syscall}
use embd_lab.Irq.{c_irq_handler}

-- What a task does next when it runs: its own code, or the rest of `mutex_lock_syscall`.
pub data Pending : Type 0 where
  user : Pending
  in_lock : ℕ → Pending

-- `claims t m`: a call of task `t` to lock mutex `m` has returned 0, and none to unlock it since.
pub record System : Type 0 where
  pub kernel : Kernel
  pub pending : ℕ → Pending
  pub claims : ℕ → ℕ → Bool

-- `r` is the code 0.
abbrev pub is_zero : ℤ → Bool
is_zero (ℤ.pos n) = n == 0
is_zero (ℤ.negsuc _) = false

-- The claims after a call of task `t` on mutex `m` returned `r`.
abbrev pub claim : (ℕ → ℕ → Bool) → (t m : ℕ) → ℤ → Bool → ℕ → ℕ → Bool
claim claims t m r b s i = if (s == t) && ((i == m) && is_zero r) then b else claims s i

-- A task other than the idle task makes a call.
pub record IsCaller (s : System) : Type 0 where
  pub in_user : s.pending s.kernel.cur_tcb ≡ user
  pub not_idle : s.kernel.cur_tcb ≢ idle_prio

pub data Step (s : System) : System → Type 0 where
  create :
      {k : Kernel} {r : ℤ}
      → IsCaller s
      → mutex_create_syscall s.kernel ≡ (k, r)
      → Step s (record s { kernel = k })
  lock_returns :
      {k : Kernel} {r : ℤ} (m : ℕ)
      → IsCaller s
      → mutex_lock_syscall (pos m) s.kernel ≡ returned k r
      → Step s (record s { kernel = k; claims = claim s.claims s.kernel.cur_tcb m r true })
  lock_waits :
      {k : Kernel} (m : ℕ)
      → IsCaller s
      → mutex_lock_syscall (pos m) s.kernel ≡ switched k
      → Step s (record s { kernel = k; pending = update s.pending s.kernel.cur_tcb (in_lock m) })
  lock_resumes :
      {k : Kernel} {r : ℤ} (m : ℕ)
      → s.pending s.kernel.cur_tcb ≡ in_lock m
      → mutex_lock_resume m s.kernel ≡ returned k r
      → Step s (record {
        kernel = k;
        pending = update s.pending s.kernel.cur_tcb user;
        claims = claim s.claims s.kernel.cur_tcb m r true;
      })
  unlock :
      {k : Kernel} {r : ℤ} (m : ℕ)
      → IsCaller s
      → mutex_unlock_syscall (pos m) s.kernel ≡ returned k r
      → Step s (record s { kernel = k; claims = claim s.claims s.kernel.cur_tcb m r false })
  event_wait_fails :
      {k : Kernel} {r : ℤ} (dev : ℕ)
      → IsCaller s
      → event_wait_syscall dev s.kernel ≡ returned k r
      → Step s (record s { kernel = k })
  event_wait :
      {k : Kernel} (dev : ℕ)
      → IsCaller s
      → event_wait_syscall dev s.kernel ≡ switched k
      → Step s (record s { kernel = k })
  interrupt : {k : Kernel} → c_irq_handler s.kernel ≡ some k → Step s (record s { kernel = k })

pub data Reach (start : System) : System → Type 0 where
  here : Reach start start
  next : {s t : System} → Reach start s → Step s t → Reach start t
