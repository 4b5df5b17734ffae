-- ===== src/Programs/Stress.antt =====
-- tasks/stress/stress.c: `main`, its array of 60 tasks and the shared variables that it sets.
pub mod Start
use embd_lab.Prelude.{
  ℕ, zero, suc, ◌+◌, ◌*◌, ◌-◌, List, [], ◌∷◌, ◌++◌, ◌==◌, ltb, if◌then◌else◌, update,
}
use embd_lab.Kernel.{Task, Kernel}
use embd_lab.Sched.{Addresses}
use embd_lab.Proc.{Creation, rejected, task_create_syscall}
use embd_lab.Programs.{Print, puts, printf}

abbrev pub num_task : ℕ
num_task = 60

abbrev pub end_time : ℕ
end_time = 9000

-- The shared variables. A score stays below 2 ^ 31, as an `int` that is only counted up has to.
pub record Globals : Type 0 where
  pub once : ℕ
  pub flag : ℕ
  pub score : ℕ → ℕ
  pub console : List Print

-- The array `tasks`, for the addresses of `fun1` and `fun2`; what lies behind it is `rest`.
unfoldable pub stress_tasks : (fun1 fun2 : ℕ) → (rest : ℕ → Task) → ℕ → Task
stress_tasks fun1 fun2 rest i =
    let stack = 0xa2000000 + 0x10000 * i in
    if ltb i (num_task - 1)
    then record { lambda = fun1; arg = i; stack_pos = stack; c = i + 1; t = (i + 1) * 100 }
    else if i == num_task - 1
    then record { lambda = fun2; arg = i; stack_pos = stack; c = 0; t = end_time }
    else rest i

-- What `main` sets before it calls `task_create`.
unfoldable pub reset : Globals → Globals
reset g = record g {
  once = 0;
  flag = 0;
  score = λ i. if ltb i (num_task - 1) then 0 else g.score i;
  console = g.console ++ (puts "Test begins" ∷ []);
}

-- The line after `task_create`, which is reached if the call returns.
abbrev pub returns_from : Creation → Globals → Creation × Globals
returns_from (rejected r) g = (
  rejected r,
  record g {
    console =
        g.console
        ++ (puts "Elvis could not leave the building, but why did your code get here!\n" ∷ []);
  },
)
returns_from creation g = (creation, g)

-- `main`, for the address `ptr` of its array.
unfoldable pub stress_main :
    Addresses → (ptr fun1 fun2 : ℕ) → (rest : ℕ → Task) → Kernel → Globals → Creation × Globals
stress_main a ptr fun1 fun2 rest k g =
    returns_from (task_create_syscall a ptr (stress_tasks fun1 fun2 rest) num_task k) (reset g)
