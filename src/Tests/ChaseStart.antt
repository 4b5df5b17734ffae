-- ===== src/Tests/ChaseStart.antt =====
-- `main` of mutex_chaser.c on a machine after boot.
use embd_lab.Prelude.{ℕ, ◌<◌, ◌≡◌, [], refl, arith, pos}
use embd_lab.Kernel.{Kernel, Task, os_num_mutex}
use embd_lab.Device.{dev_init}
use embd_lab.Sched.{allocate_tasks}
use embd_lab.Proc.{begun}
use embd_lab.Proc.Check.{InUser}
use embd_lab.Programs.Creating.{IsFresh}
use embd_lab.Programs.MutexChaser.{Fun, fun1, fun2, fun3, fun4, Globals, init_val, runs_fun}
use embd_lab.Programs.MutexChaser.Start.{chaser_main, made, in_order, chaser_main-begins}
use embd_lab.Tests.Tasks.{addresses, pair}
use embd_lab.Tests.SysErr.{fresh_kernel, fresh_kernel-IsFresh}

abbrev code : Fun → ℕ
code fun1 = 0xa0001000
code fun2 = 0xa0001100
code fun3 = 0xa0001200
code fun4 = 0xa0001300

code-InUser : (f : Fun) → InUser (code f)
code-InUser fun1 = omega arith
code-InUser fun2 = omega arith
code-InUser fun3 = omega arith
code-InUser fun4 = omega arith

abbrev globals : Globals
globals = record { mutex_val = λ _. 0; errno = pos 0; console = [] }

abbrev all_created : Kernel × Globals
all_created =
    made code (pair 1 2) addresses 0xa0030000 globals fresh_kernel-IsFresh (omega arith) code-InUser
      refl

abbrev sorted : ℕ → Task
sorted =
    in_order code (pair 1 2) addresses 0xa0030000 globals fresh_kernel-IsFresh (omega arith)
      code-InUser refl

chaser_main-begins_example :
    ((chaser_main addresses 0xa0030000 code (pair 1 2) fresh_kernel globals).0
      ≡ begun sorted (allocate_tasks addresses sorted 4 (dev_init (all_created).0)))
    × ((t : ℕ) → t < 4 → (sorted t).lambda ≡ code (runs_fun t))
    × IsFresh os_num_mutex all_created.0
    × ((j : ℕ)
        → j < os_num_mutex
        → (chaser_main addresses 0xa0030000 code (pair 1 2) fresh_kernel globals).1.mutex_val j
          ≡ init_val)
chaser_main-begins_example =
    chaser_main-begins code (pair 1 2) addresses 0xa0030000 globals fresh_kernel-IsFresh
      (omega arith) code-InUser refl
