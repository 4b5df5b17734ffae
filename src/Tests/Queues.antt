-- ===== src/Tests/Queues.antt =====
-- The run queue, the sleep queues and the switch.
use embd_lab.Prelude.{◌≡◌, refl, none, [], arith}
use embd_lab.Prelude.Bits.{set_bit}
use embd_lab.RunQueue.{runqueue_init, runqueue_add, highest_prio, unmap}
use embd_lab.RunQueue.Priority.{IsLeast, highest_prio-IsLeast}
use embd_lab.Kernel.{Kernel}
use embd_lab.Sched.{zero_context}
use embd_lab.Dispatch.{dispatch_save}
use embd_lab.Dispatch.Switch.{dispatch_save-restores}
use embd_lab.SleepQueue.Append.{Appended, append_current-Appended}
use embd_lab.WellFormed.{IsWellFormed}
use embd_lab.Waiting.{ready}
use embd_lab.Waiting.Sleep.{Placed-IsAppendable}
use embd_lab.Tests.States.{
  empty_queue, without_zero, without_zero-IsConsistent, with_zero, kernel, free_mutex, idle_mutex,
  place_zero, awake-IsWellFormed,
}

highest_prio_two : (highest_prio with_zero ≡ 0) × (highest_prio without_zero ≡ 1)
unfolding highest_prio runqueue_add runqueue_init unmap set_bit
highest_prio_two = (refl, refl)

-- The empty queue gives priority 0.
highest_prio_empty : highest_prio (runqueue_init empty_queue) ≡ 0
unfolding highest_prio runqueue_init unmap
highest_prio_empty = refl

highest_prio-IsLeast_example : IsLeast without_zero (highest_prio without_zero)
unfolding runqueue_add
highest_prio-IsLeast_example = highest_prio-IsLeast without_zero-IsConsistent 63 (omega arith) refl

append_current-Appended_example : Appended idle_mutex none []
append_current-Appended_example =
    append_current-Appended idle_mutex none []
      (Placed-IsAppendable {k = idle_mutex} wf.sound.placed (omega arith) refl 0 (omega arith))
  where
    wf : IsWellFormed idle_mutex (λ _. []) (place_zero ready)
    wf = awake-IsWellFormed free_mutex refl refl refl

-- Task 1, with 7 in r4, is left for task 0, and runs again when task 0 has gone to sleep.
abbrev leaving : Kernel
leaving = record (kernel with_zero 1 free_mutex 0 none) { cpu = record zero_context { r4 = 7 } }

abbrev returning : Kernel
returning = record (dispatch_save leaving) { queue = without_zero }

dispatch_save-restores_example :
    ((dispatch_save returning).cpu ≡ record zero_context { r4 = 7 })
    × ((dispatch_save returning).cur_tcb ≡ 1)
unfolding dispatch_save runqueue_add runqueue_init highest_prio unmap set_bit
dispatch_save-restores_example = dispatch_save-restores leaving returning refl (omega arith) refl
