-- ===== src/Proc/Check.antt =====
-- Which task sets `task_create_syscall` accepts, and what it starts.
use embd_lab.Prelude.{
  ℕ, zero, suc, ◌+◌, ◌-◌, ◌*◌, ◌/◌, ◌<◌, ◌≤◌, ◌≡◌, ◌⊎◌, inl, inr, refl, true, [], arith, ◌==◌, ◌||◌,
  if◌then◌else◌,
}
use native.Mathlib.Nat.{mod-lt, div-add-mod}
use embd_lab.Kernel.{Task, Kernel, os_max_tasks}
use embd_lab.Syscall.{einval, efault, esched}
use embd_lab.Device.{dev_init}
use embd_lab.Sched.{Addresses, allocate_tasks}
use embd_lab.Sched.Start.{IsQuiet, installed, started, allocate_tasks-IsWellFormed}
use embd_lab.Sched.Contexts.{start_context, allocate_tasks-cpu, allocate_tasks-context}
use embd_lab.WellFormed.{IsWellFormed}
use embd_lab.Proc.{
  usr_start_addr, usr_end_addr, outside_user, bad_address, utilization, check_loop, sort_tasks,
  rejected, begun, task_create_syscall,
}

abbrev pub InUser : ℕ → Type 0
InUser p = (usr_start_addr ≤ p) × (p ≤ usr_end_addr)

-- The addresses of the task lie in user memory, and its period is not zero.
pub record IsValidTask (task : Task) : Type 0 where
  pub stack : InUser task.stack_pos
  pub entry : InUser task.lambda
  pub periodic : 0 < task.t

abbrev pub AllValid : (lo n : ℕ) → (ℕ → Task) → Type 0
AllValid lo n tasks = (j : ℕ) → lo ≤ j → j < lo + n → IsValidTask (tasks j)

-- The quotient of the last of `n` tasks, or `sum` if there is none.
abbrev last_quotient : (n lo : ℕ) → (ℕ → Task) → ℕ → ℕ
last_quotient n lo tasks sum =
    if n == 0 then sum else (tasks (lo + n - 1)).c / (tasks (lo + n - 1)).t

check_loop_valid :
    (n lo : ℕ) (tasks : ℕ → Task) (sum : ℕ)
    → AllValid lo n tasks
    → check_loop n lo tasks sum ≡ utilization (last_quotient n lo tasks sum)
unfolding check_loop
check_loop_valid zero lo tasks sum valid = refl
check_loop_valid (suc zero) lo tasks sum valid =
    let v = valid lo (omega arith) (omega arith) in
    let e : lo + 1 - 1 ≡ lo = omega arith in ground (arith, v.stack, v.entry, v.periodic)
check_loop_valid (suc (suc n)) lo tasks sum valid =
    let v = valid lo (omega arith) (omega arith) in
    let e : lo + suc (suc n) - 1 ≡ lo + 1 + suc n - 1 = omega arith in
    ground (
      arith,
      v.stack,
      v.entry,
      v.periodic,
      check_loop_valid (suc n) (lo + 1) tasks ((tasks lo).c / (tasks lo).t)
          λ j l h. valid j (omega arith) (omega arith),
    )

check_loop_bad :
    (n lo : ℕ) (tasks : ℕ → Task) (sum before : ℕ)
    → before < n
    → AllValid lo before tasks
    → (outside_user (tasks (lo + before)).stack_pos || outside_user (tasks (lo + before)).lambda)
      ≡ true
    → check_loop n lo tasks sum ≡ bad_address
unfolding check_loop
check_loop_bad zero lo tasks sum before h valid bad = absurd (omega arith)
check_loop_bad (suc n) lo tasks sum zero h valid bad =
    let e : lo + 0 ≡ lo = omega arith in ground arith
check_loop_bad (suc n) lo tasks sum (suc before) h valid bad =
    let v = valid lo (omega arith) (omega arith) in
    let e : lo + suc before ≡ lo + 1 + before = omega arith in
    ground (
      arith,
      v.stack,
      v.entry,
      v.periodic,
      check_loop_bad n (lo + 1) tasks ((tasks lo).c / (tasks lo).t) before (omega arith)
          (λ j l k. valid j (omega arith) (omega arith)) (rw e at bad),
    )

quotient-le-one : (c t : ℕ) → 0 < t → c < 2 * t → c / t ≤ 1
quotient-le-one c t pos_t h = grind (arith, div-add-mod c t)

quotient-gt-one : (c t : ℕ) → 0 < t → 2 * t ≤ c → 1 < c / t
quotient-gt-one c t pos_t h = grind (arith, div-add-mod c t, mod-lt c pos_t)

pub IsQuiet-dev_init : {k : Kernel} → IsQuiet k → IsQuiet (dev_init k)
unfolding dev_init
IsQuiet-dev_init quiet = record {
  unlinked = quiet.unlinked;
  heads = λ w h. ground (arith, quiet.heads w);
  unlocked = quiet.unlocked;
  unheld = quiet.unheld;
}

module _ (a : Addresses) (ptr : ℕ) (tasks : ℕ → Task) (n : ℕ) (k : Kernel) where
  -- The kernel and the array with which the first task starts.
  abbrev pub first_kernel : Kernel
  first_kernel = allocate_tasks a (sort_tasks n tasks) n (dev_init k)

  -- More than 64 tasks give EINVAL.
  pub task_create_einval : os_max_tasks < n → task_create_syscall a ptr tasks n k ≡ rejected einval
  unfolding task_create_syscall
  task_create_einval h = ground arith

  -- An array outside user memory gives EFAULT, and so does, behind valid tasks only, a task whose
  -- stack or function lies outside user memory.
  pub task_create_efault :
      n ≤ os_max_tasks
      → (outside_user ptr ≡ true)
        ⊎ ((before : ℕ) × (before < n)
            × AllValid 0 before tasks
            × ((outside_user (tasks before).stack_pos || outside_user (tasks before).lambda)
                ≡ true))
      → task_create_syscall a ptr tasks n k ≡ rejected efault
  unfolding task_create_syscall
  task_create_efault h (inl out) = ground arith
  task_create_efault h (inr (before, lt, valid, bad)) =
      let e : 0 + before ≡ before = omega arith in
      let bad' : (outside_user (tasks (0 + before)).stack_pos
            || outside_user (tasks (0 + before)).lambda)
          ≡ true =
        rw e bad in
      ground (arith, check_loop_bad n 0 tasks 0 before lt valid bad')

  module _ (few : n ≤ os_max_tasks) (some_task : 0 < n) (inside : InUser ptr)
      (valid : AllValid 0 n tasks) where
    last_periodic : 0 < (tasks (n - 1)).t
    last_periodic = (valid (n - 1) (omega arith) (omega arith)).periodic

    checked : check_loop n 0 tasks 0 ≡ utilization ((tasks (n - 1)).c / (tasks (n - 1)).t)
    checked =
        let e : 0 + n - 1 ≡ n - 1 = omega arith in
        ground (arith, check_loop_valid n 0 tasks 0 valid)

    -- At least one and at most 64 valid tasks, of which the last needs at least twice its period,
    -- give ESCHED.
    pub task_create_esched :
        2 * (tasks (n - 1)).t ≤ (tasks (n - 1)).c
        → task_create_syscall a ptr tasks n k ≡ rejected esched
    unfolding task_create_syscall
    task_create_esched h =
        ground (arith, checked, quotient-gt-one (tasks (n - 1)).c (tasks (n - 1)).t last_periodic)

  module _ (few : n < os_max_tasks) (some_task : 0 < n) (inside : InUser ptr)
      (valid : AllValid 0 n tasks) where
    -- Where no task sleeps and no mutex is locked, at least one and at most 63 valid tasks, of
    -- which the last needs less than twice its period, are started, whatever the others need. They
    -- are sorted by `sort_tasks`, the state is well-formed with exactly these tasks and the idle task, each of
    -- them ready with its own function, argument and stack in the registers with which `launch_task`
    -- starts it, and the first of them runs.
    pub task_create_begins :
        IsQuiet k
        → (tasks (n - 1)).c < 2 * (tasks (n - 1)).t
        → (task_create_syscall a ptr tasks n k ≡ begun (sort_tasks n tasks) first_kernel)
          × IsWellFormed first_kernel (λ _. []) (installed (started n))
          × (first_kernel.cur_tcb ≡ 0)
          × (first_kernel.cpu ≡ start_context a (sort_tasks n tasks 0) 0)
          × ((t : ℕ)
              → t < n
              → (first_kernel.system_tcb t).context ≡ start_context a (sort_tasks n tasks t) t)
    unfolding task_create_syscall
    task_create_begins quiet h =
        let quiet₁ = IsQuiet-dev_init quiet in
        let (wf, runs) =
          allocate_tasks-IsWellFormed a (sort_tasks n tasks) n quiet₁ (omega arith) in
        (
          ground (
            arith,
            checked (omega arith) some_task inside valid,
            quotient-le-one (tasks (n - 1)).c (tasks (n - 1)).t
                (last_periodic (omega arith) some_task inside valid),
          ),
          wf,
          ground (arith, runs),
          allocate_tasks-cpu a (sort_tasks n tasks) n quiet₁ few some_task,
          λ t small. allocate_tasks-context a (sort_tasks n tasks) n (dev_init k) t few small,
        )
