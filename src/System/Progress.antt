-- ===== src/System/Progress.antt =====
-- No mutex call, no wait for a device and no interrupt gets stuck, in any state that the
-- started tasks can reach.
use embd_lab.Prelude.{ℕ, ◌≤◌, ◌≡◌, some}
use embd_lab.Kernel.{Task, Kernel, os_max_tasks}
use embd_lab.Sched.{Addresses}
use embd_lab.Sched.Start.{IsQuiet}
use embd_lab.Irq.{c_irq_handler}
use embd_lab.System.{System, Reach}
use embd_lab.System.Invariant.{interrupt-Inv}
use embd_lab.System.Invariant.Defs.{Inv}
use embd_lab.System.Safety.{boot, reached}

module _ (a : Addresses) (tasks : ℕ → Task) (n : ℕ) (k : Kernel) (quiet : IsQuiet k)
    (few : n ≤ os_max_tasks) {s : System} (r : Reach (boot a tasks n k) s) where
  inv : Inv n s
  inv = reached a tasks n k quiet few r

  -- In every state that at most 64 tasks reach, started from a state in which no task sleeps and no
  -- mutex is locked, the handler of the timer interrupt ends, its loops within their fuel.
  pub c_irq_handler-ends : (k' : Kernel) × (c_irq_handler s.kernel ≡ some k')
  c_irq_handler-ends = let (k', e, _) = interrupt-Inv inv in (k', e)
