-- ===== src/Programs/SysErr/Start.antt =====
-- `main` of sys_err.c, up to the end of its task.
use mathlib.Core.List.{append_assoc}
use embd_lab.Prelude.{ℕ, zero, suc, ◌≡◌, refl, ℤ, some, List, [], ◌∷◌, ◌++◌, arith, inl, ◌∙◌, ap}
use embd_lab.Kernel.{Kernel, Task}
use embd_lab.Sched.{Addresses, allocate_tasks}
use embd_lab.Sched.Start.{allocate_tasks-IsWellFormed, allocate_tasks_mutex}
use embd_lab.Device.{dev_init}
use embd_lab.Syscall.{efault}
use embd_lab.Proc.{begun, sort_tasks, sort_loop, find_min, task_exchange}
use embd_lab.Proc.Check.{
  InUser, AllValid, task_create_einval, task_create_efault, task_create_begins, IsQuiet-dev_init,
}
use embd_lab.Programs.{Print, puts}
use embd_lab.Programs.Creating.{IsFresh}
use embd_lab.Programs.SysErr.{
  Session, report_suc, check_lines, prints, sys_err_tasks, sys_err_main, fun1,
}
use embd_lab.Programs.SysErr.Steady.{Steady}
use embd_lab.Programs.SysErr.Passes.{nobody_holds, passed, fun1-passes}

-- What the program prints when every check passes.
abbrev pub all_passed : List Print
all_passed =
    (puts "TEST BEGIN!\n" ∷ [])
    ++ report_suc "1. Test create return EINVAL"
    ++ report_suc "2. Test create return EFAULT"
    ++ passed

in_all :
    (c : List Print)
    → (((c ++ (puts "TEST BEGIN!\n" ∷ [])) ++ report_suc "1. Test create return EINVAL")
          ++ report_suc "2. Test create return EFAULT")
        ++ passed
      ≡ c ++ all_passed
in_all c = simp (append_assoc)

module _ (a : Addresses) (ptr address : ℕ) (rest beef : ℕ → Task) where
  sys_err_tasks-AllValid : InUser address → AllValid 0 1 (sys_err_tasks address rest)
  unfolding sys_err_tasks
  sys_err_tasks-AllValid code zero l h = record {
    stack = omega arith;
    entry = code;
    periodic = omega arith;
  }
  sys_err_tasks-AllValid code (suc j) l h = absurd (omega arith)

  abbrev started_kernel : Kernel → Kernel
  started_kernel k = allocate_tasks a (sort_tasks 1 (sys_err_tasks address rest)) 1 (dev_init k)

  started_kernel-Steady : {k : Kernel} → IsFresh 0 k → Steady 0 nobody_holds (started_kernel k)
  unfolding dev_init
  started_kernel-Steady {k} fresh =
      let (wf, runs) =
        allocate_tasks-IsWellFormed a (sort_tasks 1 (sys_err_tasks address rest)) 1
          (IsQuiet-dev_init fresh.quiet) (omega arith) in
      let same =
        allocate_tasks_mutex a (sort_tasks 1 (sys_err_tasks address rest)) 1 (dev_init k)
          (omega arith) in
      let mutexes : (started_kernel k).gt_mutex ≡ k.gt_mutex = same in
      record {
        waiting = _;
        home = _;
        wf = wf;
        runs = runs;
        is_ready = refl;
        nobody = λ m h. refl;
        available = λ j h. ground (arith, ap (λ x. (x j).b_available) mutexes, fresh.free j);
        holder = λ j. ap (λ x. (x j).p_holding_tcb) mutexes ∙ fresh.quiet.unheld j;
      }

  module _ (s : Session) (fresh : IsFresh 0 s.kernel) (inside : InUser ptr)
      (code : InUser address) where
    -- When `task_create` starts the task.
    abbrev at_start : Session
    at_start =
        prints
          (prints (prints s (puts "TEST BEGIN!\n" ∷ []))
            (report_suc "1. Test create return EINVAL"))
          (report_suc "2. Test create return EFAULT")

    main-begins :
        (errno : ℤ) × (sys_err_main a ptr address rest beef s ≡ (
          begun (sort_tasks 1 (sys_err_tasks address rest)) (started_kernel s.kernel),
          record at_start { errno = errno },
        ))
    unfolding sys_err_main check_lines
    main-begins =
        let begins =
          task_create_begins a ptr (sys_err_tasks address rest) 1 s.kernel (omega arith)
            (omega arith) inside (sys_err_tasks-AllValid code) fresh.quiet (omega arith) in
        (
          efault,
          rw
              (
                task_create_einval a ptr (sys_err_tasks address rest) 65 s.kernel (omega arith),
                task_create_efault a 0xdeadbeef beef 30 s.kernel (omega arith) (inl refl),
                begins.0,
              )
              refl,
        )

    -- Where no mutex has been created, none is locked and no task sleeps, and the program lies in user
    -- memory, `main` of sys_err.c starts its task, and the task gets to the end of `fun1`, however many
    -- timer interrupts come before each of its calls: together they report success for all ten checks.
    pub all_checks_pass :
        (interrupts : ℕ → ℕ)
        → (tasks : ℕ → Task) × (k : Kernel) × (s₁ s₂ : Session) × (sys_err_main a ptr address rest
              beef s
            ≡ (begun tasks k, s₁))
          × ((tasks 0).lambda ≡ address)
          × (fun1 interrupts (record s₁ { kernel = k }) ≡ some (tt, s₂))
          × (s₂.console ≡ s.console ++ all_passed)
    unfolding sort_tasks sort_loop find_min task_exchange sys_err_tasks
    all_checks_pass interrupts =
        let (errno, begins) = main-begins in
        let s₁ : Session = record at_start { errno = errno } in
        let (k, calls, ends) =
          fun1-passes interrupts (record s₁ { kernel = started_kernel s.kernel })
            (started_kernel-Steady fresh) in
        (_, _, s₁, _, begins, refl, ends, in_all s.console)
