-- ===== src/System/Invariant/Others.antt =====
-- Creating mutexes, waiting for devices and the timer interrupt keep the invariant.
use embd_lab.WellFormed.Create.{hand_out-IsWellFormed}
use embd_lab.Prelude.{ℕ, ◌-◌, ◌≡◌, inl, inr, some, arith, ltb, Bool-cases}
use embd_lab.Kernel.{Kernel, num_devices, os_num_mutex}
use embd_lab.Mutex.{mutex_create_syscall}
use embd_lab.Mutex.Create.{IsFirstAvailable, hand_out, mutex_create_lem}
use embd_lab.Proc.{event_wait_syscall}
use embd_lab.Irq.{c_irq_handler}
use embd_lab.Irq.Period.{c_irq_handler_lem}
use embd_lab.WellFormed.Sleep.{dev_wait-sleeps}
use embd_lab.System.{System, IsCaller}
use embd_lab.System.Invariant.Defs.{Inv, Ends}

module _ {n : ℕ} {s : System} (inv : Inv n s) where
  open inv use {waiting, home, wf, alive, claimed, locking, known, asleep}
  open wf use {running, sound}

  -- The state with another kernel.
  abbrev With : Kernel → Type 0
  With k = Inv n (record s { kernel = k })

  handed_out : (i : ℕ) → IsFirstAvailable s.kernel 0 os_num_mutex i → With (hand_out i s.kernel)
  unfolding hand_out
  handed_out i first = record {
    waiting = waiting;
    home = home;
    wf = hand_out-IsWellFormed i wf first;
    alive = λ t h e. ground (arith, alive t);
    claimed = λ t m h. ground (arith, claimed t m);
    locking = λ t m l h. ground (arith, locking t m);
    known = λ t m l h. ground (arith, known t m);
    asleep = asleep;
  }

  pub create-Inv : With (mutex_create_syscall s.kernel).0
  create-Inv = elim (mutex_create_lem s.kernel) [
    | inl (all, e) ↦ rw e inv
    | inr (i, first, e) ↦ rw e (handed_out i first)
  ]

  -- A call to wait for a device never faults, and keeps the invariant.
  pub event_wait-Inv :
      IsCaller s → (dev : ℕ) → Ends (λ k _. With k) With (event_wait_syscall dev s.kernel)
  unfolding event_wait_syscall
  event_wait-Inv caller dev = elim (Bool-cases (ltb (num_devices - 1) dev)) [
    | inl bad ↦ rw bad inv
    | inr good ↦
        let (k', e, wf', first, same) = dev_wait-sleeps wf dev (ground arith) caller.not_idle in
        rw (good, e)
          record {
            waiting = _;
            home = _;
            wf = wf';
            alive = λ t h e. ground (arith, alive t);
            claimed = λ t m h. ground (arith, claimed t m, same);
            locking = λ t m l h. ground (arith, locking t m, same, caller.in_user);
            known = λ t m l h. ground (arith, known t m, same);
            asleep = λ t m l h e. ground (arith, asleep t m);
          }
  ]

  pub interrupt-Inv : (k' : Kernel) × (c_irq_handler s.kernel ≡ some k') × With k'
  interrupt-Inv =
      let (k', e, u) = c_irq_handler_lem wf in
      (
        k',
        e,
        record {
          waiting = _;
          home = _;
          wf = u.wf;
          alive = λ t h e. ground (arith, alive t);
          claimed = λ t m h. ground (arith, claimed t m, u.same_mutex);
          locking = λ t m l h. ground (arith, locking t m, u.same_mutex);
          known = λ t m l h. ground (arith, known t m, u.same_mutex);
          asleep = λ t m l h e. ground (arith, asleep t m);
        },
      )
