-- ===== src/Swi.antt =====
-- kernel/syscall/sys.c: the dispatch of system calls by number, with the numbers of
-- kernel/include/bits/swi.h.
use embd_lab.Prelude.{ℕ, ◌+◌, ◌-◌, ◌^◌, ℤ, pos, negsuc, Option, List, ◌==◌, ltb, if◌then◌else◌}
use embd_lab.Kernel.{Task, Kernel}
use embd_lab.Syscall.{Outcome, returned}
use embd_lab.Mutex.{mutex_create_syscall, mutex_lock_syscall, mutex_unlock_syscall}
use embd_lab.Sched.{Addresses}
use embd_lab.Proc.{Creation, task_create_syscall, event_wait_syscall}
use embd_lab.Io.{ReadCall, read_syscall, WriteCall, write_syscall}
use embd_lab.Time.{time_syscall, sleep_syscall}

abbrev pub swi_base : ℕ
swi_base = 0x900000

abbrev pub read_swi : ℕ
read_swi = swi_base + 3

abbrev pub write_swi : ℕ
write_swi = swi_base + 4

abbrev pub time_swi : ℕ
time_swi = swi_base + 6

abbrev pub sleep_swi : ℕ
sleep_swi = swi_base + 7

abbrev pub create_swi : ℕ
create_swi = swi_base + 10

abbrev pub mutex_create : ℕ
mutex_create = swi_base + 15

abbrev pub mutex_lock : ℕ
mutex_lock = swi_base + 16

abbrev pub mutex_unlock : ℕ
mutex_unlock = swi_base + 17

abbrev pub event_wait : ℕ
event_wait = swi_base + 20

-- What the handlers read from outside the kernel: the user's memory as bytes and as tasks from an
-- address on, the typed keys, the clock with the number of times it is read at most, and the addresses
-- of the kernel's code.
pub record Outside : Type 0 where
  pub bytes : (buf : ℕ) → ℕ → ℕ
  pub tasks : (ptr : ℕ) → ℕ → Task
  pub keys : List ℕ
  pub clock : ℕ → ℕ
  pub reads : ℕ
  pub addresses : Addresses

-- How a call ends: as its handler does, or in the endless loop of `invalid_syscall`.
pub data Answer : Type 0 where
  reading : ReadCall → Answer
  writing : WriteCall → Answer
  time : ℕ → Answer
  slept : Option ℕ → Answer
  creating : Creation → Answer
  ended : Outcome → Answer
  panicked : Answer

-- `(int) w` of a 32-bit word.
unfoldable pub to_int : ℕ → ℤ
to_int w = if ltb w (2 ^ 31) then pos w else negsuc (2 ^ 32 - 1 - w)

-- `getSWI`, for the three words that `sp` points to.
unfoldable pub get_swi : Outside → (num : ℕ) → (sp : ℕ → ℕ) → Kernel → Answer
get_swi o num sp k =
    if num == read_swi
    then reading (read_syscall (to_int (sp 0)) (sp 1) (sp 2) (o.bytes (sp 1)) o.keys)
    else if num == write_swi
    then writing (write_syscall (to_int (sp 0)) (sp 1) (sp 2) (o.bytes (sp 1)))
    else if num == time_swi
    then time (time_syscall k)
    else if num == sleep_swi
    then slept (sleep_syscall o.reads (sp 0) o.clock)
    else if num == create_swi
    then creating (task_create_syscall o.addresses (sp 0) (o.tasks (sp 0)) (sp 1) k)
    else if num == event_wait
    then ended (event_wait_syscall (sp 0) k)
    else if num == mutex_create
    then ended (returned (mutex_create_syscall k).0 (mutex_create_syscall k).1)
    else if num == mutex_lock
    then ended (mutex_lock_syscall (to_int (sp 0)) k)
    else if num == mutex_unlock
    then ended (mutex_unlock_syscall (to_int (sp 0)) k)
    else panicked
