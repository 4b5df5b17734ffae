-- ===== src/Tests/Dagger.antt =====
-- The tasks of dagger.c on a machine with mutex 0 created: `fun4` prints and waits, and `fun1` locks the
-- mutex and prints its first character.
use embd_lab.Prelude.{◌≡◌, ◌∷◌, [], refl, true, arith, pos}
use embd_lab.Prelude.Bits.{set_bit, clear_bit}
use embd_lab.RunQueue.{runqueue_init, runqueue_add, runqueue_remove, highest_prio, unmap}
use embd_lab.Dispatch.{
  dispatch_init, dispatch_nosave, dispatch_sleep, get_cur_prio, get_cur_tcb, enable_interrupts,
  disable_interrupts,
}
use embd_lab.SleepQueue.{append_current, last_node, link_last}
use embd_lab.Device.{dev_wait}
use embd_lab.Mutex.{mutex_lock_syscall, take_mutex}
use embd_lab.Sched.{sched_init, install, install_loop, allocated, allocate_tasks}
use embd_lab.Proc.{event_wait_syscall}
use embd_lab.WellFormed.Lock.{IsCreated}
use embd_lab.Programs.{putchar}
use embd_lab.Programs.Machine.{Config, Runs, begins, then_runs, works, waits, locks, receives}
use embd_lab.Programs.Balanced.Succeed.{calls_succeed}
use embd_lab.Programs.Dagger.{Point, Globals, dagger, first, runs_fun, step, request, resume}
use embd_lab.Programs.Dagger.Section.{held, going, uses, dagger-IsBalanced}
use embd_lab.Programs.Dagger.Printed.{in_order}
use embd_lab.Programs.Dagger.Fives.{
  dagger_start, first-outside, first-going, all_created, whole_rounds,
}
use embd_lab.Tests.Tasks.{addresses, boot_kernel, boot_kernel-IsQuiet, pair}

mutex_0 : IsCreated boot_kernel 0
mutex_0 = record { small = omega arith; taken = refl }

abbrev silent : Globals
silent = record { errno = pos 0; console = [] }

abbrev start : Config Point Globals
start =
    dagger_start 0 addresses (pair 10 20) 4 boot_kernel boot_kernel-IsQuiet (omega arith) mutex_0
      silent

record Ran : Type 0 where
  last : Config Point Globals
  runs : Runs (dagger 0) start last

-- `fun1` has called `mutex_lock`.
has_called : Ran
unfolding allocate_tasks allocated sched_init install install_loop dispatch_init dispatch_nosave
    runqueue_init runqueue_add runqueue_remove highest_prio unmap set_bit clear_bit
    mutex_lock_syscall take_mutex get_cur_tcb disable_interrupts enable_interrupts step request
    event_wait_syscall dev_wait append_current last_node link_last dispatch_sleep get_cur_prio
has_called = record {
  last = _;
  runs =
      then_runs
        (then_runs
          (then_runs begins (
            works (record {
              caller = record { in_user = refl; not_idle = omega arith };
              no_reply = refl;
              asked = refl;
            })))
          (waits 3
            (record {
              caller = record { in_user = refl; not_idle = omega arith };
              no_reply = refl;
              asked = refl;
            })
            refl))
        (locks 0
          (record {
            caller = record { in_user = refl; not_idle = omega arith };
            no_reply = refl;
            asked = refl;
          })
          refl);
}

-- It has printed its first character.
has_printed : Ran
unfolding has_called resume step request
has_printed = record {
  last = _;
  runs =
      then_runs
        (then_runs has_called.runs
          (receives (record { in_user = refl; not_idle = omega arith }) refl))
        (works (record {
          caller = record { in_user = refl; not_idle = omega arith };
          no_reply = refl;
          asked = refl;
        }));
}

printed_two : has_printed.last.globals.console ≡ putchar b'*' ∷ putchar b'@' ∷ []
unfolding has_printed
printed_two = refl

whole_rounds_example : in_order 0 has_printed.last.globals.console ≡ true
whole_rounds_example =
    whole_rounds 0 addresses (pair 10 20) 4 boot_kernel boot_kernel-IsQuiet (omega arith) mutex_0
      silent refl has_printed.runs

calls_succeed_example : pos 0 ≡ pos 0
unfolding has_called request
calls_succeed_example =
    calls_succeed (dagger 0) (held 0) (λ _. going) (uses 0) (dagger-IsBalanced 0) addresses
      (pair 10 20) 4 boot_kernel boot_kernel-IsQuiet (omega arith)
      (all_created 0 addresses (pair 10 20) 4 boot_kernel boot_kernel-IsQuiet (omega arith) mutex_0
        silent)
      (λ t. first (runs_fun t)) silent
      (first-outside 0 addresses (pair 10 20) 4 boot_kernel boot_kernel-IsQuiet (omega arith)
        mutex_0 silent)
      (first-going 0 addresses (pair 10 20) 4 boot_kernel boot_kernel-IsQuiet (omega arith) mutex_0
        silent)
      1 (pos 0) has_called.runs refl refl
