-- ===== src/Tests/DaggerStart.antt =====
-- `main` of dagger.c on a machine after boot.
use embd_lab.Prelude.{ℕ, ◌<◌, ◌≡◌, [], arith, pos}
use embd_lab.Kernel.{Kernel}
use embd_lab.Device.{dev_init}
use embd_lab.Sched.{allocate_tasks}
use embd_lab.Sched.Start.{IsQuiet}
use embd_lab.WellFormed.Lock.{IsCreated}
use embd_lab.Proc.{begun, sort_tasks}
use embd_lab.Proc.Check.{InUser}
use embd_lab.Programs.Dagger.{
  Fun, fun1, fun2, fun3, fun4, Globals, runs_fun, dagger_tasks, dagger_main,
}
use embd_lab.Programs.Dagger.Start.{dagger_main-begins}
use embd_lab.Tests.Tasks.{addresses, pair}
use embd_lab.Tests.SysErr.{fresh_kernel, fresh_kernel-IsFresh}

abbrev code : Fun → ℕ
code fun1 = 0xa0001000
code fun2 = 0xa0001100
code fun3 = 0xa0001200
code fun4 = 0xa0001300

code-InUser : (f : Fun) → InUser (code f)
code-InUser fun1 = omega arith
code-InUser fun2 = omega arith
code-InUser fun3 = omega arith
code-InUser fun4 = omega arith

abbrev globals : Globals
globals = record { errno = pos 0; console = [] }

dagger_main-begins_example :
    (k₁ : Kernel) × ((dagger_main addresses 0xa0030000 code (pair 1 2) fresh_kernel globals).0.0
      ≡ begun
          (sort_tasks 4 (dagger_tasks code (pair 1 2)))
          (allocate_tasks addresses (sort_tasks 4 (dagger_tasks code (pair 1 2))) 4 (dev_init k₁)))
    × ((dagger_main addresses 0xa0030000 code (pair 1 2) fresh_kernel globals).1 ≡ pos 0)
    × ((t : ℕ) → t < 4 → (sort_tasks 4 (dagger_tasks code (pair 1 2)) t).lambda ≡ code (runs_fun t))
    × IsCreated k₁ 0
    × IsQuiet k₁
dagger_main-begins_example =
    dagger_main-begins code (pair 1 2) addresses 0xa0030000 globals fresh_kernel-IsFresh
      (omega arith) code-InUser
