-- ===== src/Programs/Machine.antt =====
-- Tasks as machines that run on the kernel. Between two system calls a task works in small steps, and
-- the timer can interrupt it between any two of them. The stub of a call, in tasks/libc/swi, receives
-- its result when the task runs again.
use embd_lab.Prelude.{ℕ, ℤ, pos, ◌≡◌, true, false, Option, none, some, update}
use embd_lab.Kernel.{Kernel}
use embd_lab.Syscall.{returned, switched}
use embd_lab.Mutex.{mutex_lock_syscall, mutex_lock_resume, mutex_unlock_syscall}
use embd_lab.Proc.{event_wait_syscall}
use embd_lab.Irq.{c_irq_handler}
use embd_lab.System.{
  System, user, in_lock, claim, IsCaller, lock_returns, lock_waits, lock_resumes, unlock,
  event_wait_fails, event_wait, interrupt, Reach, next,
}

-- What a task does next: a call of the library, or a step of its own.
pub data Request : Type 0 where
  mutex_lock : ℕ → Request
  mutex_unlock : ℕ → Request
  wait_event : ℕ → Request
  work : Request

-- For each task, what it does at a point of its code, where it goes on with the result of a call, and
-- what a step of its own does; `G` is the memory that the tasks share.
pub record Program (P G : Type 0) : Type 0 where
  pub request : ℕ → P → Request
  pub resume : ℕ → P → ℤ → G → P × G
  pub step : ℕ → P → G → P × G

-- `replies t` is a result that the kernel has returned to task `t`, and its stub has not received.
pub record Config (P G : Type 0) : Type 0 where
  pub sys : System
  pub at : ℕ → P
  pub replies : ℕ → Option ℤ
  pub globals : G

module _ {P G : Type 0} (program : Program P G) where
  abbrev pub running : Config P G → ℕ
  running c = c.sys.kernel.cur_tcb

  -- The running task goes on at a new point.
  abbrev pub goes_on : Config P G → P × G → Config P G
  goes_on c (p, g) = record c {
    at = update c.at (running c) p;
    replies = update c.replies (running c) none;
    globals = g;
  }

  -- The running task's request, where it is not inside a call.
  pub record Asks (c : Config P G) (r : Request) : Type 0 where
    pub caller : IsCaller c.sys
    pub no_reply : c.replies (running c) ≡ none
    pub asked : program.request (running c) (c.at (running c)) ≡ r

  pub data Run (c : Config P G) : Config P G → Type 0 where
    works : Asks c work → Run c (goes_on c (program.step (running c) (c.at (running c)) c.globals))
    receives :
        {r : ℤ}
        → IsCaller c.sys
        → c.replies (running c) ≡ some r
        → Run c (goes_on c (program.resume (running c) (c.at (running c)) r c.globals))
    locks :
        {k : Kernel} {r : ℤ} (m : ℕ)
        → Asks c (mutex_lock m)
        → mutex_lock_syscall (pos m) c.sys.kernel ≡ returned k r
        → Run c (record c {
          sys = record c.sys { kernel = k; claims = claim c.sys.claims (running c) m r true };
          replies = update c.replies (running c) (some r);
        })
    blocks :
        {k : Kernel} (m : ℕ)
        → Asks c (mutex_lock m)
        → mutex_lock_syscall (pos m) c.sys.kernel ≡ switched k
        → Run c (record c {
          sys = record c.sys { kernel = k; pending = update c.sys.pending (running c) (in_lock m) };
        })
    is_granted :
        {k : Kernel} {r : ℤ} (m : ℕ)
        → c.sys.pending (running c) ≡ in_lock m
        → mutex_lock_resume m c.sys.kernel ≡ returned k r
        → Run c (record c {
          sys = record {
            kernel = k;
            pending = update c.sys.pending (running c) user;
            claims = claim c.sys.claims (running c) m r true;
          };
          replies = update c.replies (running c) (some r);
        })
    unlocks :
        {k : Kernel} {r : ℤ} (m : ℕ)
        → Asks c (mutex_unlock m)
        → mutex_unlock_syscall (pos m) c.sys.kernel ≡ returned k r
        → Run c (record c {
          sys = record c.sys { kernel = k; claims = claim c.sys.claims (running c) m r false };
          replies = update c.replies (running c) (some r);
        })
    fails_to_wait :
        {k : Kernel} {r : ℤ} (dev : ℕ)
        → Asks c (wait_event dev)
        → event_wait_syscall dev c.sys.kernel ≡ returned k r
        → Run c (record c {
          sys = record c.sys { kernel = k };
          replies = update c.replies (running c) (some r);
        })
    waits :
        {k : Kernel} (dev : ℕ)
        → Asks c (wait_event dev)
        → event_wait_syscall dev c.sys.kernel ≡ switched k
        → Run c (record c {
          sys = record c.sys { kernel = k };
          replies = update c.replies (running c) (some (pos 0));
        })
    is_interrupted :
        {k : Kernel}
        → c_irq_handler c.sys.kernel ≡ some k
        → Run c (record c { sys = record c.sys { kernel = k } })

  pub data Runs (start : Config P G) : Config P G → Type 0 where
    begins : Runs start start
    then_runs : {c d : Config P G} → Runs start c → Run c d → Runs start d

  -- What the programs do is a run of the kernel's transition system.
  pub Run-Reach :
      {start : System} {c d : Config P G} → Reach start c.sys → Run c d → Reach start d.sys
  Run-Reach r (works a) = r
  Run-Reach r (receives a e) = r
  Run-Reach r (locks m a e) = next r (lock_returns m a.caller e)
  Run-Reach r (blocks m a e) = next r (lock_waits m a.caller e)
  Run-Reach r (is_granted m p e) = next r (lock_resumes m p e)
  Run-Reach r (unlocks m a e) = next r (unlock m a.caller e)
  Run-Reach r (fails_to_wait dev a e) = next r (event_wait_fails dev a.caller e)
  Run-Reach r (waits dev a e) = next r (event_wait dev a.caller e)
  Run-Reach r (is_interrupted e) = next r (interrupt e)

  pub Runs-Reach :
      {first : System} {start c : Config P G}
      → Reach first start.sys
      → Runs start c
      → Reach first c.sys
  Runs-Reach r begins = r
  Runs-Reach r (then_runs rs st) = Run-Reach (Runs-Reach r rs) st
