-- ===== src/Kernel.antt =====
-- The kernel's global state: kernel/include/task.h, lock.h and config.h, and the variables of
-- kernel/sched/ctx_switch.c, lock/mutex.c, device.c and global.c. A pointer into `system_tcb` is the
-- index of its element, and `none` is the null pointer.
use embd_lab.Prelude.{ℕ, Bool, Option, update}
use embd_lab.RunQueue.{RunQueue}

abbrev pub os_max_tasks : ℕ
os_max_tasks = 64

abbrev pub idle_prio : ℕ
idle_prio = 63

abbrev pub os_num_mutex : ℕ
os_num_mutex = 32

abbrev pub num_devices : ℕ
num_devices = 63

-- `task_t`; `arg` is the field `data`.
pub record Task : Type 0 where
  pub lambda : ℕ
  pub arg : ℕ
  pub stack_pos : ℕ
  pub c : ℕ
  pub t : ℕ

pub record SchedContext : Type 0 where
  pub r4 : ℕ
  pub r5 : ℕ
  pub r6 : ℕ
  pub r7 : ℕ
  pub r8 : ℕ
  pub r9 : ℕ
  pub r10 : ℕ
  pub r11 : ℕ
  pub sp : ℕ
  pub lr : ℕ

-- `tcb_t` without the embedded kernel stack.
pub record Tcb : Type 0 where
  pub native_prio : ℕ
  pub cur_prio : ℕ
  pub context : SchedContext
  pub holds_lock : ℕ
  pub sleep_queue : Option ℕ

pub record Mutex : Type 0 where
  pub b_available : Bool
  pub p_holding_tcb : Option ℕ
  pub b_lock : Bool
  pub p_sleep_queue : Option ℕ

pub record Dev : Type 0 where
  pub sleep_queue : Option ℕ
  pub next_match : ℕ

-- `cpu` is what r4 to r11, sp and lr hold; `irq_enabled` is the I bit of the status register.
pub record Kernel : Type 0 where
  pub queue : RunQueue
  pub system_tcb : ℕ → Tcb
  pub cur_tcb : ℕ
  pub gt_mutex : ℕ → Mutex
  pub devices : ℕ → Dev
  pub system_time : ℕ
  pub irq_enabled : Bool
  pub cpu : SchedContext

-- The sleep queue links, `system_tcb[a].sleep_queue`.
abbrev pub links : (ℕ → Tcb) → ℕ → Option ℕ
links tcbs a = (tcbs a).sleep_queue

-- `system_tcb[a].sleep_queue = v`.
abbrev pub set_link : (ℕ → Tcb) → ℕ → Option ℕ → ℕ → Tcb
set_link tcbs a v = update tcbs a (record (tcbs a) { sleep_queue = v })
