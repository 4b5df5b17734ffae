-- ===== src/Tests/Chase.antt =====
-- `fun1` of mutex_chaser.c on a machine with all mutexes created: it locks mutex 1, and changes its
-- number from 2 to 5.
use embd_lab.Prelude.{pos, ◌≡◌, ◌≢◌, ◌∷◌, ◌++◌, [], refl, false, none, arith}
use embd_lab.Prelude.Bits.{set_bit, clear_bit}
use embd_lab.RunQueue.{runqueue_init, runqueue_add, runqueue_remove, highest_prio, unmap}
use embd_lab.Kernel.{Kernel}
use embd_lab.Dispatch.{
  dispatch_init, dispatch_nosave, get_cur_tcb, enable_interrupts, disable_interrupts,
}
use embd_lab.Mutex.{mutex_lock_syscall, take_mutex}
use embd_lab.Sched.{sched_init, install, install_loop, allocated, allocate_tasks}
use embd_lab.Sched.Start.{IsQuiet}
use embd_lab.Programs.{puts, printf}
use embd_lab.Programs.Machine.{Runs, begins, then_runs, works, locks, receives}
use embd_lab.Programs.MutexChaser.{
  mutex_chaser, Globals, operation, result_val, init_val, no_str, fun4, checking, step, request,
  resume, panicked, failed_unlock,
}
use embd_lab.Programs.MutexChaser.Updates.{Chase, chase_start, history, replay, no_lost_update}
use embd_lab.Programs.MutexChaser.Pairs.{never_panics}
use embd_lab.Programs.MutexChaser.First.{first_check_fails}
use embd_lab.Tests.Tasks.{addresses, boot_kernel, boot_kernel-IsQuiet, pair}

-- The kernel with all mutexes created.
abbrev created_kernel : Kernel
created_kernel = record boot_kernel {
  gt_mutex = λ i. record {
    b_available = false;
    p_holding_tcb = none;
    b_lock = false;
    p_sleep_queue = none;
  };
}

created_kernel-IsQuiet : IsQuiet created_kernel
created_kernel-IsQuiet = record {
  unlinked = boot_kernel-IsQuiet.unlinked;
  heads = λ w h. ground arith;
  unlocked = λ m. refl;
  unheld = λ m. refl;
}

abbrev shared : Globals
shared = record { mutex_val = λ _. init_val; errno = pos 0; console = [] }

abbrev first : Chase
first =
    chase_start addresses (pair 10 20) 2 created_kernel created_kernel-IsQuiet (omega arith) shared

record Chased : Type 0 where
  last : Chase
  runs : Runs mutex_chaser first last

-- It has the mutex.
has_mutex : Chased
unfolding allocate_tasks allocated sched_init install install_loop dispatch_init dispatch_nosave
    runqueue_init runqueue_add runqueue_remove highest_prio unmap set_bit clear_bit
    mutex_lock_syscall take_mutex get_cur_tcb disable_interrupts enable_interrupts step request
    resume
has_mutex = record {
  last = _;
  runs =
      then_runs
        (then_runs
          (then_runs begins (
            works (record {
              caller = record { in_user = refl; not_idle = omega arith };
              no_reply = refl;
              asked = refl;
            })))
          (locks 1
            (record {
              caller = record { in_user = refl; not_idle = omega arith };
              no_reply = refl;
              asked = refl;
            })
            refl))
        (receives (record { in_user = refl; not_idle = omega arith }) refl);
}

-- It has read the number.
has_read : Chased
unfolding has_mutex step request
has_read = record {
  last = _;
  runs = then_runs has_mutex.runs (
      works (record {
        caller = record { in_user = refl; not_idle = omega arith };
        no_reply = refl;
        asked = refl;
      }));
}

-- It has written the number.
has_written : Chased
unfolding has_read step request
has_written = record {
  last = _;
  runs = then_runs has_read.runs (
      works (record {
        caller = record { in_user = refl; not_idle = omega arith };
        no_reply = refl;
        asked = refl;
      }));
}

final_value : has_written.last.globals.mutex_val 1 ≡ 5
unfolding has_written operation
final_value = refl

no_lost_update_example :
    has_written.last.globals.mutex_val 1 ≡ replay (history has_written.runs 1) init_val
no_lost_update_example =
    no_lost_update addresses (pair 10 20) 2 created_kernel created_kernel-IsQuiet (omega arith)
      shared has_written.runs 1

first_check_fails_example :
    (step fun4 (checking 0) has_written.last.globals).1.console
    ≡ has_written.last.globals.console
      ++ printf "Final mutex%d value %d == result value %d\n" (0 ∷ init_val ∷ result_val ∷ [])
        ∷ puts no_str
        ∷ []
first_check_fails_example =
    first_check_fails addresses (pair 10 20) 2 created_kernel created_kernel-IsQuiet (omega arith)
      shared has_written.runs refl

never_panics_example : (has_written.last.at 0 ≢ panicked) × (has_written.last.at 0 ≢ failed_unlock)
never_panics_example =
    never_panics addresses (pair 10 20) 2 created_kernel created_kernel-IsQuiet (omega arith) shared
      0 (λ m h. refl) has_written.runs
