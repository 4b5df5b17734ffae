-- ===== src/Tests/SysErr.antt =====
-- sys_err.c on a machine after boot.
use embd_lab.Prelude.{ℕ, ◌≡◌, ◌++◌, [], refl, true, false, none, some, arith, pos}
use embd_lab.Kernel.{Kernel, Task}
use embd_lab.Proc.{begun}
use embd_lab.Programs.Creating.{IsFresh}
use embd_lab.Programs.SysErr.{Session, sys_err_main, fun1}
use embd_lab.Programs.SysErr.Start.{all_passed, all_checks_pass}
use embd_lab.Tests.Tasks.{addresses, boot_kernel, boot_kernel-IsQuiet, pair}

-- The kernel before the first call of `mutex_create`.
abbrev pub fresh_kernel : Kernel
fresh_kernel = record boot_kernel {
  gt_mutex = λ i. record {
    b_available = true;
    p_holding_tcb = none;
    b_lock = false;
    p_sleep_queue = none;
  };
}

pub fresh_kernel-IsFresh : IsFresh 0 fresh_kernel
fresh_kernel-IsFresh = record {
  quiet = record {
    unlinked = boot_kernel-IsQuiet.unlinked;
    heads = λ w h. ground arith;
    unlocked = λ m. refl;
    unheld = λ m. refl;
  };
  taken = λ j h. absurd (omega arith);
  free = λ j l h. refl;
}

abbrev session : Session
session = record { kernel = fresh_kernel; errno = pos 0; console = []; calls = 0 }

-- One interrupt comes before each call.
all_checks_pass_example :
    (tasks : ℕ → Task) × (k : Kernel) × (s₁ s₂ : Session) × (sys_err_main addresses 0xa0030000
        0xa0001000
        (pair 1 2)
        (pair 1 2)
        session
      ≡ (begun tasks k, s₁))
    × ((tasks 0).lambda ≡ 0xa0001000)
    × (fun1 (λ _. 1) (record s₁ { kernel = k }) ≡ some (tt, s₂))
    × (s₂.console ≡ [] ++ all_passed)
all_checks_pass_example =
    all_checks_pass addresses 0xa0030000 0xa0001000 (pair 1 2) (pair 1 2) session
      fresh_kernel-IsFresh (omega arith) (omega arith) (λ _. 1)
