-- ===== src/System/Invariant.antt =====
-- The invariant of the transition system, kept by every step.
mod Calls
mod Others
pub mod Defs
pub use Calls.{locking-holds, lock-Inv, unlock-Inv}
pub use Others.{event_wait-Inv, interrupt-Inv}
use embd_lab.Prelude.{ℕ, ◌≡◌, Option, some, arith, sym, ◌∙◌}
use embd_lab.Kernel.{Kernel}
use embd_lab.System.{
  System, Step, create, lock_returns, lock_waits, lock_resumes, unlock, event_wait_fails,
  event_wait, interrupt, Reach, here, next,
}
use Defs.{Inv, Ends}
use Calls.{lock_resume-Inv}
use Others.{create-Inv}

-- Every step keeps the invariant: the kernel is well-formed, the tasks exist, a task that has locked a
-- mutex is its holder, and a task inside `mutex_lock_syscall` sleeps in the mutex's queue or holds it.
pub Step-Inv : {n : ℕ} {s t : System} → Inv n s → Step s t → Inv n t
Step-Inv inv (create caller e) = rw e at (create-Inv inv)
Step-Inv inv (lock_returns m caller e) = rw e at (lock-Inv inv m caller)
Step-Inv inv (lock_waits m caller e) = rw e at (lock-Inv inv m caller)
Step-Inv inv (lock_resumes m inside e) = rw e at (lock_resume-Inv inv m inside)
Step-Inv inv (unlock m caller e) = rw e at (unlock-Inv inv m caller)
Step-Inv inv (event_wait_fails dev caller e) = rw e at (event_wait-Inv inv caller dev)
Step-Inv inv (event_wait dev caller e) = rw e at (event_wait-Inv inv caller dev)
Step-Inv {s} inv (interrupt {k} e) =
    let (k', e', inv') = interrupt-Inv inv in let same : k' ≡ k = ground arith in rw same at inv'

pub Reach-Inv : {n : ℕ} {s t : System} → Inv n s → Reach s t → Inv n t
Reach-Inv inv here = inv
Reach-Inv inv (next r st) = Step-Inv (Reach-Inv inv r) st
