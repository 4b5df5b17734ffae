-- ===== src/Sched/Contexts.antt =====
-- With what each task starts.
use embd_lab.Prelude.{
  ℕ, zero, suc, ◌+◌, ◌*◌, ◌%◌, ◌^◌, ◌<◌, ◌≤◌, ◌≡◌, refl, ◌∙◌, inl, inr, false, arith, ◌==◌,
  Bool-cases,
}
use embd_lab.Kernel.{Task, SchedContext, Kernel, os_max_tasks, idle_prio}
use embd_lab.RunQueue.{highest_prio}
use embd_lab.Dispatch.{dispatch_init, dispatch_nosave, ctx_switch_half}
use embd_lab.Sched.{Addresses, install, install_loop, allocated, allocate_tasks}
use embd_lab.Sched.Start.{IsQuiet, allocate_tasks-IsWellFormed}

module _ (a : Addresses) where
  -- The registers with which `launch_task` starts `task` in slot `t`: its function, its argument and its
  -- stack, and a kernel stack of its own.
  abbrev pub start_context : Task → ℕ → SchedContext
  start_context task t = record {
    r4 = task.lambda;
    r5 = task.arg;
    r6 = task.stack_pos;
    r7 = 0;
    r8 = 0;
    r9 = 0;
    r10 = 0;
    r11 = 0;
    sp = (0xa3800000 + t * 0x1000) % 2 ^ 32;
    lr = a.launch_task;
  }

  install_loop-before :
      (rounds index : ℕ) (tasks : ℕ → Task) (k : Kernel) (t : ℕ)
      → t < index
      → ((install_loop a rounds index tasks k).system_tcb t).context ≡ (k.system_tcb t).context
  unfolding install_loop install
  install_loop-before zero index tasks k t h = refl
  install_loop-before (suc rounds) index tasks k t h =
      install_loop-before rounds (index + 1) tasks _ t (omega arith) ∙ ground arith

  install_loop-context :
      (rounds index : ℕ) (tasks : ℕ → Task) (k : Kernel) (t : ℕ)
      → index ≤ t
      → t < index + rounds
      → ((install_loop a rounds index tasks k).system_tcb t).context ≡ start_context (tasks t) t
  unfolding install_loop install
  install_loop-context zero index tasks k t l h = absurd (omega arith)
  install_loop-context (suc rounds) index tasks k t l h = elim (Bool-cases (index == t)) [
    | inl here ↦
        let same : index ≡ t = ground arith in
        install_loop-before rounds (index + 1) tasks _ t (omega arith) ∙ rw same (ground arith)
    | inr later ↦ install_loop-context rounds (index + 1) tasks _ t (ground arith) (omega arith)
  ]

  allocated-context :
      (tasks : ℕ → Task) (num_tasks : ℕ) (k : Kernel) (t : ℕ)
      → num_tasks < os_max_tasks
      → t < num_tasks
      → ((allocated a tasks num_tasks k).system_tcb t).context ≡ start_context (tasks t) t
  unfolding allocated install dispatch_init
  allocated-context tasks num_tasks k t few h =
      let other : (idle_prio == t) ≡ false = ground arith in
      rw other (install_loop-context num_tasks 0 tasks _ t (omega arith) (omega arith))

  -- Fewer than 64 tasks: the idle task has slot 63.
  pub allocate_tasks-context :
      (tasks : ℕ → Task) (num_tasks : ℕ) (k : Kernel) (t : ℕ)
      → num_tasks < os_max_tasks
      → t < num_tasks
      → ((allocate_tasks a tasks num_tasks k).system_tcb t).context ≡ start_context (tasks t) t
  unfolding allocate_tasks dispatch_nosave ctx_switch_half
  allocate_tasks-context tasks num_tasks k t few h = allocated-context tasks num_tasks k t few h

  -- The registers are those of the first task.
  pub allocate_tasks-cpu :
      (tasks : ℕ → Task) (num_tasks : ℕ) {k : Kernel}
      → IsQuiet k
      → num_tasks < os_max_tasks
      → 0 < num_tasks
      → (allocate_tasks a tasks num_tasks k).cpu ≡ start_context (tasks 0) 0
  unfolding allocate_tasks dispatch_nosave ctx_switch_half
  allocate_tasks-cpu tasks num_tasks {k} quiet few some_task =
      let (_, runs) = allocate_tasks-IsWellFormed a tasks num_tasks quiet (omega arith) in
      let first : highest_prio (allocated a tasks num_tasks k).queue ≡ 0 = runs ∙ ground arith in
      rw first (allocated-context tasks num_tasks k 0 few some_task)
