-- ===== src/Proc.antt =====
-- kernel/syscall/proc.c: creating tasks and waiting for a device. The user's array of tasks is a
-- function of the index.
pub mod Sort
pub mod Sorted
pub mod Check
use embd_lab.Prelude.{
  ℕ, zero, suc, ◌+◌, ◌-◌, ◌/◌, ℤ, pos, Bool, Option, none, some, ◌==◌, ltb, ◌||◌, if◌then◌else◌,
  update,
}
use embd_lab.Kernel.{Task, Kernel, os_max_tasks, num_devices}
use embd_lab.Syscall.{Outcome, returned, switched, fault, einval, efault, esched}
use embd_lab.Device.{dev_init, dev_wait}
use embd_lab.Sched.{Addresses, allocate_tasks}

abbrev pub usr_start_addr : ℕ
usr_start_addr = 0xa0000000

abbrev pub usr_end_addr : ℕ
usr_end_addr = 0xa3000000

-- Swaps two elements, through a temporary: for `i = j` nothing changes.
unfoldable pub task_exchange : (ℕ → Task) → (i j : ℕ) → ℕ → Task
task_exchange tasks i j = update (update tasks i (tasks j)) j (tasks i)

-- The inner loop of the sort, from `j` with the rounds left: the index of a shortest period.
unfoldable pub find_min : (rounds j : ℕ) → (ℕ → Task) → (min : ℕ) → ℕ
find_min zero j tasks min = min
find_min (suc rounds) j tasks min =
    find_min rounds (j + 1) tasks (if ltb (tasks j).t (tasks min).t then j else min)

-- The outer loop, from `i` with the rounds left.
unfoldable pub sort_loop : (rounds i : ℕ) → (ℕ → Task) → ℕ → Task
sort_loop zero i tasks = tasks
sort_loop (suc rounds) i tasks =
    sort_loop rounds (i + 1) (task_exchange tasks i (find_min rounds (i + 1) tasks i))

unfoldable pub sort_tasks : ℕ → (ℕ → Task) → ℕ → Task
sort_tasks num_tasks tasks = sort_loop num_tasks 0 tasks

abbrev pub outside_user : ℕ → Bool
outside_user p = ltb usr_end_addr p || ltb p usr_start_addr

-- How the loop over the tasks' addresses ends: with an error, with a division by zero, or with the
-- value of `sum`. `sum` is a `float` that is set to an integer quotient, and only compared with 1.
pub data Checked : Type 0 where
  bad_address : Checked
  division_by_zero : Checked
  utilization : ℕ → Checked

-- The loop, from `i` with the rounds left. Each round overwrites `sum`.
unfoldable pub check_loop : (rounds i : ℕ) → (ℕ → Task) → (sum : ℕ) → Checked
check_loop zero i tasks sum = utilization sum
check_loop (suc rounds) i tasks sum =
    let rest = check_loop rounds (i + 1) tasks ((tasks i).c / (tasks i).t) in
    if outside_user (tasks i).stack_pos
    then bad_address
    else if outside_user (tasks i).lambda
    then bad_address
    else if (tasks i).t == 0
    then division_by_zero
    else rest

-- `rejected`: the call returns a code. `crashed`: it divides by zero. `begun`: it does not return;
-- the user's array has been sorted, and the kernel switched to the first task.
pub data Creation : Type 0 where
  rejected : ℤ → Creation
  crashed : Creation
  begun : (ℕ → Task) → Kernel → Creation

-- `task_create_syscall`, for the address `ptr` of the array and its elements.
unfoldable pub task_create_syscall : Addresses → (ptr : ℕ) → (ℕ → Task) → ℕ → Kernel → Creation
task_create_syscall a ptr tasks num_tasks k =
    if ltb os_max_tasks num_tasks
    then rejected einval
    else if outside_user ptr
    then rejected efault
    else elim (check_loop num_tasks 0 tasks 0) [
      | bad_address ↦ rejected efault
      | division_by_zero ↦ crashed
      | utilization sum ↦
          if ltb 1 sum
          then rejected esched
          else begun (sort_tasks num_tasks tasks)
              (allocate_tasks a (sort_tasks num_tasks tasks) num_tasks (dev_init k))
    ]

-- Up to the switch of `dev_wait`, after which the call returns 0.
unfoldable pub event_wait_syscall : ℕ → Kernel → Outcome
event_wait_syscall dev k =
    if ltb (num_devices - 1) dev
    then returned k einval
    else elim (dev_wait dev k) [ none ↦ fault | some k' ↦ switched k' ]
