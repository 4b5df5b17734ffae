-- ===== src/Tests/Systems.antt =====
-- A run of two tasks: task 0 sleeps, task 1 locks mutex 0, the timer wakes task 0, which waits for the
-- mutex, and task 1 unlocks it and sleeps.
use embd_lab.Prelude.{ℕ, pos, ◌<◌, [], ◌≡◌, ◌⊎◌, refl, true, none, some, arith}
use embd_lab.Prelude.Bits.{set_bit, clear_bit}
use embd_lab.RunQueue.{runqueue_init, runqueue_add, runqueue_remove, highest_prio, unmap}
use embd_lab.Kernel.{Kernel, links}
use embd_lab.Dispatch.{
  dispatch_init, dispatch_save, dispatch_nosave, dispatch_sleep, get_cur_prio, get_cur_tcb,
  enable_interrupts, disable_interrupts,
}
use embd_lab.SleepQueue.{append_current, last_node, link_last}
use embd_lab.Syscall.{returned}
use embd_lab.Mutex.{
  mutex_create_syscall, mutex_lock_syscall, mutex_lock_resume, mutex_unlock_syscall, take_mutex,
  block_on, release,
}
use embd_lab.Device.{dev_wait, wake, wake_all, signal, signal_loop, dev_update}
use embd_lab.Proc.{event_wait_syscall}
use embd_lab.Sched.{sched_init, install, install_loop, allocated, allocate_tasks}
use embd_lab.Waiting.{num_queues}
use embd_lab.System.{
  System, Step, create, lock_returns, lock_waits, lock_resumes, unlock, event_wait, interrupt,
  Reach, here, next,
}
use embd_lab.System.Safety.{
  boot, mutual_exclusion, resumed_lock_holds, no_task_lost, SleepsIn, boot-Inv,
}
use embd_lab.System.Invariant.{Step-Inv}
use embd_lab.System.Invariant.Defs.{Inv}
use embd_lab.WellFormed.Lock.{IsCreated}
use embd_lab.System.Claims.{LockOutcome, UnlockOutcome, lock_decided, unlock_decided}
use embd_lab.Tests.Tasks.{addresses, boot_kernel, boot_kernel-IsQuiet, pair}
use embd_lab.Swi.{Outside}
use embd_lab.System.Progress.{c_irq_handler-ends}
use embd_lab.Irq.{c_irq_handler}

abbrev start : System
start = boot addresses (pair 10 20) 2 boot_kernel

record Run : Type 0 where
  last : System
  reach : Reach start last

-- Task 0 sleeps on device 3; task 1 runs.
asleep : Run
unfolding allocate_tasks allocated sched_init install install_loop dispatch_init dispatch_nosave
    runqueue_init runqueue_add runqueue_remove highest_prio unmap set_bit clear_bit
    event_wait_syscall dev_wait append_current last_node link_last dispatch_sleep get_cur_prio
asleep = record {
  last = _;
  reach = next here (event_wait 3 (record { in_user = refl; not_idle = omega arith }) refl);
}

-- Task 1 holds mutex 0.
locked : Run
unfolding asleep mutex_lock_syscall take_mutex get_cur_tcb disable_interrupts enable_interrupts
locked = record {
  last = _;
  reach =
      next asleep.reach (lock_returns 0 (record { in_user = refl; not_idle = omega arith }) refl);
}

-- The timer has woken task 0, which runs.
woken : Run
unfolding locked c_irq_handler dev_update signal_loop signal wake_all wake dispatch_save
woken = record { last = _; reach = next locked.reach (interrupt refl) }

-- Task 0 waits for the mutex; task 1 runs.
waiting : Run
unfolding woken block_on
waiting = record {
  last = _;
  reach = next woken.reach (lock_waits 0 (record { in_user = refl; not_idle = omega arith }) refl);
}

-- Task 1 has handed the mutex over and sleeps; task 0 runs, inside its call.
handed : Run
unfolding waiting mutex_unlock_syscall release
handed = record {
  last = _;
  reach =
      next (next waiting.reach (unlock 0 (record { in_user = refl; not_idle = omega arith }) refl))
        (event_wait 1 (record { in_user = refl; not_idle = omega arith }) refl);
}

-- The call of task 0 has returned.
resumed : Run
unfolding handed mutex_lock_resume
resumed = record { last = _; reach = next handed.reach (lock_resumes 0 refl refl) }

mutual_exclusion_example : ◌≡◌ {A = ℕ} 1 1
unfolding locked
mutual_exclusion_example =
    mutual_exclusion addresses (pair 10 20) 2 boot_kernel boot_kernel-IsQuiet (omega arith)
      locked.reach 0 1 1 refl refl

resumed_lock_holds_example :
    ((handed.last.kernel.gt_mutex 0).p_holding_tcb ≡ some handed.last.kernel.cur_tcb)
    × ((k' : Kernel) × (mutex_lock_resume 0 handed.last.kernel ≡ returned k' (pos 0))
        × ((i : ℕ) → k'.gt_mutex i ≡ handed.last.kernel.gt_mutex i))
unfolding handed
resumed_lock_holds_example =
    resumed_lock_holds addresses (pair 10 20) 2 boot_kernel boot_kernel-IsQuiet (omega arith)
      handed.reach 0 refl

no_task_lost_example :
    ((waiting.last.kernel.queue.run_list 0 ≡ some 0)
      × (links waiting.last.kernel.system_tcb 0 ≡ none))
    ⊎ ((w : ℕ) × (w < num_queues)
        × SleepsIn waiting.last 0 w
        × (waiting.last.kernel.queue.run_list 0 ≡ none))
no_task_lost_example =
    no_task_lost addresses (pair 10 20) 2 boot_kernel boot_kernel-IsQuiet (omega arith)
      waiting.reach 0 (omega arith) (omega arith)

-- Task 0 holds the mutex in the end.
resumed_claims : (resumed.last.claims 0 0 ≡ true) × (resumed.last.kernel.cur_tcb ≡ 0)
unfolding resumed
resumed_claims = (refl, refl)

abbrev started : System
started = record start { kernel = (mutex_create_syscall start.kernel).0 }

Step-Inv_example : Inv 2 started
unfolding asleep
Step-Inv_example = Step-Inv start-Inv created
  where
    start-Inv : Inv 2 start
    start-Inv = boot-Inv addresses (pair 10 20) 2 boot_kernel boot_kernel-IsQuiet (omega arith) here

    created : Step start started
    created = create (record { in_user = refl; not_idle = omega arith }) refl

-- A user whose memory is empty, and who presses no key.
abbrev outside : Outside
outside = record {
  bytes = λ _ _. 0;
  tasks = λ _. pair 10 20;
  keys = [];
  clock = λ i. i;
  reads = 0;
  addresses = addresses;
}

mutex_0 : IsCreated locked.last.kernel 0
unfolding locked
mutex_0 = record { small = omega arith; taken = refl }

lock_decided_example : LockOutcome locked.last 0
unfolding locked
lock_decided_example =
    lock_decided addresses (pair 10 20) 2 boot_kernel boot_kernel-IsQuiet (omega arith) locked.reach
      (record { in_user = refl; not_idle = omega arith }) 0 mutex_0

unlock_decided_example : UnlockOutcome locked.last 0
unfolding locked
unlock_decided_example =
    unlock_decided addresses (pair 10 20) 2 boot_kernel boot_kernel-IsQuiet (omega arith)
      locked.reach (record { in_user = refl; not_idle = omega arith }) 0 mutex_0

c_irq_handler-ends_example : (k' : Kernel) × (c_irq_handler waiting.last.kernel ≡ some k')
c_irq_handler-ends_example =
    c_irq_handler-ends addresses (pair 10 20) 2 boot_kernel boot_kernel-IsQuiet (omega arith)
      waiting.reach
