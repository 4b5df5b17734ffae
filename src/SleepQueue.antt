-- ===== src/SleepQueue.antt =====
-- The sleep queues of kernel/lock/mutex.c and kernel/device.c: lists of TCBs linked through their
-- field `sleep_queue`. Both files append the running task by the same loop.
pub mod Chain
pub mod Append
use embd_lab.Prelude.{ℕ, zero, suc, Option, none, some}
use embd_lab.RunQueue.{runqueue_remove}
use embd_lab.Kernel.{Tcb, Kernel, links, set_link, os_max_tasks}
use embd_lab.Dispatch.{get_cur_prio}

-- The `while (1)` loop from a node on: the address of the last node. `none` is out of fuel.
unfoldable pub last_node : ℕ → (ℕ → Tcb) → ℕ → Option ℕ
last_node zero tcbs p = none
last_node (suc fuel) tcbs p = elim (links tcbs p) [
  | none ↦ some p
  | some next ↦ last_node fuel tcbs next
]

-- `(*tmp)->sleep_queue = tcb; ((*tmp)->sleep_queue)->sleep_queue = 0`, where writing through a null
-- `tcb` is a fault, `none`.
unfoldable pub link_last : (ℕ → Tcb) → (last : ℕ) → Option ℕ → Option (ℕ → Tcb)
link_last tcbs last none = none
link_last tcbs last (some tcb) = some (set_link (set_link tcbs last (some tcb)) tcb none)

-- The loop that takes the running task out of the run queue and appends it to the queue that starts
-- at `head`, with the queue's new head. An empty queue leaves the task's own link as it is.
unfoldable pub append_current : Option ℕ → Kernel → Option (Option ℕ × Kernel)
unfolding link_last
append_current none k =
    let (queue, tcb) = runqueue_remove k.queue (get_cur_prio k) in
    some (tcb, record k { queue = queue })
append_current (some p) k = elim (last_node os_max_tasks k.system_tcb p) [
  | none ↦ none
  | some last ↦
      let (queue, tcb) = runqueue_remove k.queue (get_cur_prio k) in
      elim (link_last k.system_tcb last tcb) [
        | none ↦ none
        | some tcbs ↦ some (some p, record k { queue = queue; system_tcb = tcbs })
      ]
]
