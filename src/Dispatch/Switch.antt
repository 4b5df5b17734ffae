-- ===== src/Dispatch/Switch.antt =====
-- What a context switch keeps.
use embd_lab.Prelude.{ℕ, ◌≡◌, ◌≢◌, arith, ◌==◌, if◌then◌else◌}
use embd_lab.Kernel.{Kernel}
use embd_lab.RunQueue.{highest_prio}
use embd_lab.Dispatch.{dispatch_save}

-- A task that is switched out and later switched to again by a task `other` finds its registers as they
-- were, if its stored context and its place were not touched in between.
pub dispatch_save-restores :
    (k later : Kernel)
    → (later.system_tcb k.cur_tcb).context ≡ ((dispatch_save k).system_tcb k.cur_tcb).context
    → later.cur_tcb ≢ k.cur_tcb
    → highest_prio later.queue ≡ k.cur_tcb
    → ((dispatch_save later).cpu ≡ k.cpu) × ((dispatch_save later).cur_tcb ≡ k.cur_tcb)
unfolding dispatch_save
dispatch_save-restores k later kept other first = (ground arith, first)

-- A switch stores the registers of the task that it leaves, loads those of the first task, and keeps
-- the stored registers of every other task.
pub dispatch_save_contexts :
    (k : Kernel) (t : ℕ)
    → ((((dispatch_save k).system_tcb t).context)
        ≡ (if k.cur_tcb == t then k.cpu else (k.system_tcb t).context))
      × ((dispatch_save k).cpu ≡ (
          if k.cur_tcb == highest_prio k.queue
          then k.cpu
          else (k.system_tcb (highest_prio k.queue)).context))
unfolding dispatch_save
dispatch_save_contexts k t = (ground arith, ground arith)
