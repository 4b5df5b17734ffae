-- ===== src/Programs/Stress/Start.antt =====
-- `main` of stress.c.
use embd_lab.Prelude.{ℕ, refl, ◌-◌, ◌<◌, ◌≡◌, [], arith}
use embd_lab.Kernel.{Task, Kernel}
use embd_lab.Sched.{Addresses}
use embd_lab.Sched.Start.{IsQuiet, installed, started}
use embd_lab.WellFormed.{IsWellFormed}
use embd_lab.Proc.{begun, sort_tasks}
use embd_lab.Proc.Check.{InUser, AllValid, first_kernel, task_create_begins}
use embd_lab.Programs.Stress.{Globals, num_task, stress_tasks, reset, stress_main}

module _ (a : Addresses) (ptr fun1 fun2 : ℕ) (rest : ℕ → Task) (inside : InUser ptr)
    (code₁ : InUser fun1) (code₂ : InUser fun2) where
  stress_tasks-AllValid : AllValid 0 num_task (stress_tasks fun1 fun2 rest)
  unfolding stress_tasks
  stress_tasks-AllValid j l h = ground (arith, code₁, code₂)

  -- Where no task sleeps and no mutex is locked, and the program lies in user memory, `main` of
  -- stress.c starts its 60 tasks, with all scores 0, and the kernel's state is well-formed.
  pub stress_main-begins :
      (k : Kernel) (g : Globals)
      → IsQuiet k
      → (stress_main a ptr fun1 fun2 rest k g ≡ (
        begun
            (sort_tasks num_task (stress_tasks fun1 fun2 rest))
            (first_kernel a ptr (stress_tasks fun1 fun2 rest) num_task k),
        reset g,
      ))
        × ((i : ℕ) → i < num_task - 1 → (reset g).score i ≡ 0)
        × IsWellFormed
            (first_kernel a ptr (stress_tasks fun1 fun2 rest) num_task k)
            (λ _. [])
            (installed (started num_task))
  unfolding stress_main stress_tasks reset
  stress_main-begins k g quiet =
      let (begins, wf, _, _, _) =
        task_create_begins a ptr (stress_tasks fun1 fun2 rest) num_task k (omega arith)
          (omega arith) inside stress_tasks-AllValid quiet (omega arith) in
      (rw begins refl, λ i h. ground arith, wf)
