-- ===== src/Sched.antt =====
-- kernel/sched/sched.c. The addresses of the assembly routine `launch_task` and of the function `idle`
-- are parameters.
pub mod Start
pub mod Contexts
use embd_lab.Prelude.{ℕ, zero, suc, ◌+◌, ◌*◌, ◌%◌, ◌^◌, some, ltb, if◌then◌else◌, update}
use embd_lab.RunQueue.{runqueue_init, runqueue_add}
use embd_lab.Kernel.{Task, SchedContext, Tcb, Kernel, os_max_tasks, idle_prio}
use embd_lab.Dispatch.{dispatch_init, dispatch_nosave}

pub record Addresses : Type 0 where
  pub launch_task : ℕ
  pub idle : ℕ

abbrev pub zero_context : SchedContext
zero_context = record {
  r4 = 0;
  r5 = 0;
  r6 = 0;
  r7 = 0;
  r8 = 0;
  r9 = 0;
  r10 = 0;
  r11 = 0;
  sp = 0;
  lr = 0;
}

-- The fields `holds_lock` and `sleep_queue` are left as they are.
unfoldable pub sched_init : Kernel → Kernel
sched_init k = record k {
  system_tcb = λ i.
      if ltb i os_max_tasks
      then record (k.system_tcb i) { native_prio = 0; cur_prio = 0; context = zero_context }
      else k.system_tcb i;
}

module _ (a : Addresses) where
  -- The context in which a task first runs, with its three arguments and its slot.
  abbrev pub first_context : (r4 r5 r6 index : ℕ) → SchedContext
  first_context r4 r5 r6 index = record zero_context {
    r4 = r4;
    r5 = r5;
    r6 = r6;
    sp = (0xa3800000 + index * 0x1000) % 2 ^ 32;
    lr = a.launch_task;
  }

  -- One TCB is filled in and put into the run queue; `native_prio` is a `uint8_t`.
  unfoldable pub install : ℕ → (r4 r5 r6 : ℕ) → Kernel → Kernel
  install index r4 r5 r6 k =
      let prio = index % 256 in
      record k {
        system_tcb = update k.system_tcb index (record (k.system_tcb index) {
          native_prio = prio;
          cur_prio = prio;
          context = first_context r4 r5 r6 index;
        });
        queue = runqueue_add k.queue (some index) prio;
      }

  -- The loop of `allocate_tasks`, with the rounds left and the index.
  unfoldable pub install_loop : (rounds index : ℕ) → (ℕ → Task) → Kernel → Kernel
  install_loop zero index tasks k = k
  install_loop (suc rounds) index tasks k =
      let task = tasks index in
      install_loop rounds (index + 1) tasks (install index task.lambda task.arg task.stack_pos k)

  -- The state before the dispatch.
  unfoldable pub allocated : (ℕ → Task) → ℕ → Kernel → Kernel
  allocated tasks num_tasks k =
      let k₁ = sched_init (record k { queue = runqueue_init k.queue }) in
      let k₂ = install_loop num_tasks 0 tasks k₁ in
      dispatch_init (install idle_prio a.idle 0 0 k₂) idle_prio

  -- `allocate_tasks`, up to its switch; it does not return.
  unfoldable pub allocate_tasks : (ℕ → Task) → ℕ → Kernel → Kernel
  allocate_tasks tasks num_tasks k = dispatch_nosave (allocated tasks num_tasks k)
