-- ===== src/Programs/Exclusive.antt =====
-- Critical sections: two tasks are never at once between the lock and the unlock of one mutex.
use embd_lab.Prelude.{ℕ, ℤ, ◌≡◌, ◌≤◌, ◌⊎◌, true, false, Bool, none, some, arith}
use embd_lab.Kernel.{Task, Kernel, os_max_tasks}
use embd_lab.Sched.{Addresses}
use embd_lab.Sched.Start.{IsQuiet}
use embd_lab.System.{in_lock, is_zero, here}
use embd_lab.System.Safety.{boot, mutual_exclusion}
use embd_lab.Programs.Machine.{
  mutex_lock, mutex_unlock, Program, Config, Run, works, receives, locks, blocks, is_granted,
  unlocks, fails_to_wait, waits, is_interrupted, Runs, begins, then_runs, Runs-Reach,
}

-- `inside t p m`: at point `p` task `t` may touch what mutex `m` protects. It gets there only by a call
-- of `mutex_lock` that returns 0, and is out before it calls `mutex_unlock`.
pub record IsGuarded {P G : Type 0} (program : Program P G) (inside : ℕ → P → ℕ → Bool)
    : Type 0 where
  pub resumes :
      (t : ℕ) (p : P) (r : ℤ) (g : G) (i : ℕ)
      → inside t (program.resume t p r g).0 i ≡ true
      → (inside t p i ≡ true) ⊎ ((program.request t p ≡ mutex_lock i) × (is_zero r ≡ true))
  pub steps :
      (t : ℕ) (p : P) (g : G) (i : ℕ)
      → inside t (program.step t p g).0 i ≡ true
      → inside t p i ≡ true
  pub leaves : (t : ℕ) (p : P) (m : ℕ) → program.request t p ≡ mutex_unlock m → inside t p m ≡ false

module _ {P G : Type 0} (program : Program P G) (inside : ℕ → P → ℕ → Bool) where
  -- A task inside a critical section has locked its mutex, and so has one that is about to enter.
  pub record Agrees (c : Config P G) : Type 0 where
    pub held : (t i : ℕ) → inside t (c.at t) i ≡ true → c.sys.claims t i ≡ true
    pub asking : (t m : ℕ) → c.sys.pending t ≡ in_lock m → program.request t (c.at t) ≡ mutex_lock m
    pub granted :
        (t m : ℕ) (r : ℤ)
        → c.replies t ≡ some r
        → is_zero r ≡ true
        → program.request t (c.at t) ≡ mutex_lock m
        → c.sys.claims t m ≡ true

  module _ (guarded : IsGuarded program inside) where
    Run-Agrees : {c d : Config P G} → Agrees c → Run program c d → Agrees d
    Run-Agrees {c} h (works a) = record {
      held = λ t i. ground (arith, h.held t i, guarded.steps t (c.at t) c.globals i);
      asking = λ t i. ground (arith, h.asking t i, a.caller.in_user);
      granted = λ t i r. ground (arith, h.granted t i r);
    }
    Run-Agrees {c} h (receives {r} who e) = record {
      held = λ t i.
          ground (arith, h.held t i, guarded.resumes t (c.at t) r c.globals i, h.granted t i r);
      asking = λ t i. ground (arith, h.asking t i, who.in_user);
      granted = λ t i r. ground (arith, h.granted t i r);
    }
    Run-Agrees h (locks m a e) = record {
      held = λ t i. ground (arith, h.held t i);
      asking = λ t i. ground (arith, h.asking t i, a.caller.in_user, a.asked);
      granted = λ t i r. ground (arith, h.granted t i r, a.asked);
    }
    Run-Agrees h (blocks m a e) = record {
      held = λ t i. ground (arith, h.held t i);
      asking = λ t i. ground (arith, h.asking t i, a.caller.in_user, a.asked);
      granted = λ t i r. ground (arith, h.granted t i r, a.asked);
    }
    Run-Agrees h (is_granted m p e) = record {
      held = λ t i. ground (arith, h.held t i);
      asking = λ t i. ground (arith, h.asking t i);
      granted = λ t i r. ground (arith, h.granted t i r, h.asking t m);
    }
    Run-Agrees {c} h (unlocks m a e) = record {
      held = λ t i. ground (arith, h.held t i, a.asked, guarded.leaves t (c.at t) m);
      asking = λ t i. ground (arith, h.asking t i);
      granted = λ t i r. ground (arith, h.granted t i r, a.asked);
    }
    Run-Agrees h (fails_to_wait dev a e) = record {
      held = λ t i. ground (arith, h.held t i);
      asking = λ t i. ground (arith, h.asking t i);
      granted = λ t i r. ground (arith, h.granted t i r, a.asked);
    }
    Run-Agrees h (waits dev a e) = record {
      held = λ t i. ground (arith, h.held t i);
      asking = λ t i. ground (arith, h.asking t i);
      granted = λ t i r. ground (arith, h.granted t i r, a.asked);
    }
    Run-Agrees h (is_interrupted e) = record {
      held = h.held;
      asking = h.asking;
      granted = h.granted;
    }

    Runs-Agrees : {start c : Config P G} → Agrees start → Runs program start c → Agrees c
    Runs-Agrees h begins = h
    Runs-Agrees h (then_runs rs st) = Run-Agrees (Runs-Agrees h rs) st

    module _ (a : Addresses) (tasks : ℕ → Task) (n : ℕ) (k : Kernel) (quiet : IsQuiet k)
        (few : n ≤ os_max_tasks) (at : ℕ → P) (g : G)
        (outside : (t i : ℕ) → inside t (at t) i ≡ false) where
      -- The first task starts, and no task is inside a critical section.
      abbrev pub started_config : Config P G
      started_config = record { sys = boot a tasks n k; at = at; replies = λ _. none; globals = g }

      pub started-Agrees : Agrees started_config
      started-Agrees = record {
        held = λ t i. ground (arith, outside t i);
        asking = λ t m. ground arith;
        granted = λ t m r. ground arith;
      }

      -- Whatever the tasks do, and however the timer interrupts them: in every configuration that tasks
      -- reach, started outside their critical sections in a state in which no task sleeps and no mutex
      -- is locked, two tasks inside a critical section of one mutex are one and the same.
      pub exclusive :
          {c : Config P G}
          → Runs program started_config c
          → (m t u : ℕ) → inside t (c.at t) m ≡ true
          → inside u (c.at u) m ≡ true
          → t ≡ u
      exclusive runs m t u it iu =
          let h = Runs-Agrees started-Agrees runs in
          mutual_exclusion a tasks n k quiet few (Runs-Reach program here runs) m t u
            (h.held t m it) (h.held u m iu)
