-- ===== src/Tests/Tasks.antt =====
-- Creating tasks.
use embd_lab.Prelude.{ℕ, ◌+◌, ◌<◌, ◌≤◌, ◌≡◌, refl, Bool, true, none, [], arith, ◌==◌, if◌then◌else◌}
use embd_lab.Kernel.{Task, Kernel}
use embd_lab.Syscall.{esched}
use embd_lab.Sched.{Addresses, zero_context}
use embd_lab.Sched.Contexts.{start_context}
use embd_lab.Sched.Start.{IsQuiet, installed, started}
use embd_lab.WellFormed.{IsWellFormed}
use embd_lab.Proc.{
  find_min, task_exchange, sort_loop, sort_tasks, rejected, begun, task_create_syscall,
}
use embd_lab.Proc.Sort.{count}
use embd_lab.Proc.Sorted.{sort_tasks-ordered, sort_tasks-permutes}
use embd_lab.Proc.Check.{AllValid, first_kernel, task_create_esched, task_create_begins}
use embd_lab.Tests.States.{empty_queue, tcb, mutexes, free_mutex}

abbrev pub addresses : Addresses
addresses = record { launch_task = 0xa3000100; idle = 0xa3000200 }

-- The kernel before the first tasks, with mutex 0 created and every device due at 1.
abbrev pub boot_kernel : Kernel
boot_kernel = record {
  queue = empty_queue;
  system_tcb = tcb;
  cur_tcb = 0;
  gt_mutex = mutexes free_mutex;
  devices = λ i. record { sleep_queue = none; next_match = 1 };
  system_time = 0;
  irq_enabled = true;
  cpu = zero_context;
}

pub boot_kernel-IsQuiet : IsQuiet boot_kernel
boot_kernel-IsQuiet = record {
  unlinked = λ a. refl;
  heads = λ w h. ground arith;
  unlocked = λ m. ground arith;
  unheld = λ m. ground arith;
}

abbrev task : (c t : ℕ) → Task
task c t = record { lambda = 0xa0001000; arg = 7; stack_pos = 0xa0020000; c = c; t = t }

-- Task 0 runs for `c` of 200, task 1 for `c'` of 100.
abbrev pub pair : (c c' : ℕ) → ℕ → Task
pair c c' i = if i == 0 then task c 200 else task c' 100

pair-AllValid : (c c' n : ℕ) → AllValid 0 n (pair c c')
pair-AllValid c c' n j l h = ground arith

sort_pair : ((sort_tasks 2 (pair 10 20) 0).t ≡ 100) × ((sort_tasks 2 (pair 10 20) 1).t ≡ 200)
unfolding sort_tasks sort_loop find_min task_exchange
sort_pair = (refl, refl)

sort_tasks-ordered_example : (sort_tasks 2 (pair 10 20) 0).t ≤ (sort_tasks 2 (pair 10 20) 1).t
sort_tasks-ordered_example = sort_tasks-ordered 2 (pair 10 20) 0 1 (omega arith) (omega arith)

sort_tasks-permutes_example :
    ((p : Task → Bool) → count p 2 (sort_tasks 2 (pair 10 20)) ≡ count p 2 (pair 10 20))
    × ((j : ℕ) → sort_tasks 2 (pair 10 20) (2 + j) ≡ pair 10 20 (2 + j))
sort_tasks-permutes_example = sort_tasks-permutes 2 (pair 10 20)

task_create_esched_example :
    task_create_syscall addresses 0xa0000000 (pair 10 200) 2 boot_kernel ≡ rejected esched
task_create_esched_example =
    task_create_esched addresses 0xa0000000 (pair 10 200) 2 boot_kernel (omega arith) (omega arith)
      (omega arith) (pair-AllValid 10 200 2) (omega arith)

-- The first task alone needs ten times the processor.
task_create_begins_example :
    (task_create_syscall addresses 0xa0000000 (pair 2000 20) 2 boot_kernel
      ≡ begun
          (sort_tasks 2 (pair 2000 20))
          (first_kernel addresses 0xa0000000 (pair 2000 20) 2 boot_kernel))
    × IsWellFormed
        (first_kernel addresses 0xa0000000 (pair 2000 20) 2 boot_kernel)
        (λ _. [])
        (installed (started 2))
    × ((first_kernel addresses 0xa0000000 (pair 2000 20) 2 boot_kernel).cur_tcb ≡ 0)
    × ((first_kernel addresses 0xa0000000 (pair 2000 20) 2 boot_kernel).cpu
        ≡ start_context addresses (sort_tasks 2 (pair 2000 20) 0) 0)
    × ((t : ℕ)
        → t < 2
        → ((first_kernel addresses 0xa0000000 (pair 2000 20) 2 boot_kernel).system_tcb t).context
          ≡ start_context addresses (sort_tasks 2 (pair 2000 20) t) t)
task_create_begins_example =
    task_create_begins addresses 0xa0000000 (pair 2000 20) 2 boot_kernel (omega arith) (omega arith)
      (omega arith) (pair-AllValid 2000 20 2) boot_kernel-IsQuiet (omega arith)
