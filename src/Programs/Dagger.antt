-- ===== src/Programs/Dagger.antt =====
-- tasks/dagger/dagger.c: four tasks that print their characters. `fun1` prints five in a row while it
-- holds a mutex, and waits between them; `fun3` prints one with the same mutex.
pub mod Section
pub mod Printed
pub mod Fives
pub mod Start
use Prim.Native.String.{String}
use embd_lab.Prelude.{
  ℕ, zero, suc, ◌+◌, ℤ, pos, negsuc, Bool, true, false, List, [], ◌∷◌, ◌++◌, ◌==◌, ltb,
  if◌then◌else◌,
}
use embd_lab.Kernel.{Task, Kernel}
use embd_lab.Mutex.{mutex_create_syscall}
use embd_lab.Sched.{Addresses}
use embd_lab.Proc.{Creation, rejected, task_create_syscall}
use embd_lab.Programs.{
  Print, putchar, puts, is_negative, checked_reply, period_dev0, period_dev1, period_dev2,
  period_dev3,
}
use embd_lab.Programs.Machine.{Request, mutex_lock, mutex_unlock, wait_event, work, Program}

-- The four functions: `fun1` to `fun4`.
pub data Fun : Type 0 where
  fun1 fun2 fun3 fun4 : Fun

abbrev pub device : Fun → ℕ
device fun1 = 0
device fun2 = 1
device fun3 = 2
device fun4 = 3

-- The character in `data`.
abbrev pub name : Fun → ℕ
name fun1 = b'@'
name fun2 = b'<'
name fun3 = b'>'
name fun4 = b'*'

abbrev pub dev_failed : Fun → String
dev_failed fun1 = "Dev 0 failed"
dev_failed fun2 = "Dev 1 failed"
dev_failed fun3 = "Dev 2 failed"
dev_failed fun4 = "Dev 3 failed"

-- Where a function is, with `i`. `waiting` is the call of `event_wait` inside the loop of `fun1`, and
-- `panicked` the endless loop of `panic`, with the place of the call that failed.
pub data Point : Type 0 where
  locking : Point
  printing : ℕ → Point
  waiting : ℕ → Point
  unlocking : Point
  resting : Point
  panicked : Point → Point

pub record Globals : Type 0 where
  pub errno : ℤ
  pub console : List Print

abbrev pub prints : Globals → List Print → Globals
prints g ps = record g { console = g.console ++ ps }

-- `panic(str)`.
abbrev pub panic : Point → String → Globals → Point × Globals
panic at str g = (panicked at, prints g (puts str ∷ []))

-- What a function calls, for the number in `mutex1`.
unfoldable pub request : (mutex1 : ℕ) → Fun → Point → Request
request mutex1 f resting = wait_event (device f)
request mutex1 fun1 locking = mutex_lock mutex1
request mutex1 fun1 (waiting i) = wait_event 0
request mutex1 fun1 unlocking = mutex_unlock mutex1
request mutex1 fun3 locking = mutex_lock mutex1
request mutex1 fun3 unlocking = mutex_unlock mutex1
request mutex1 f p = work

-- The start of the loop of a function.
abbrev pub first : Fun → Point
first fun1 = locking
first fun2 = printing 0
first fun3 = locking
first fun4 = printing 0

-- Where `event_wait` has returned at `p`.
abbrev pub after_wait : Fun → (p next : Point) → ℤ → Globals → Point × Globals
after_wait f p next r g = if is_negative r then panic p (dev_failed f) g else (next, g)

-- The result of a call, which its stub stores in `errno`. Those of the mutex calls are not looked at.
unfoldable pub resume : Fun → Point → ℤ → Globals → Point × Globals
resume f locking r g = (printing 0, record g { errno = r })
resume f (waiting i) r g =
    after_wait f (waiting i) (if ltb (i + 1) 5 then printing (i + 1) else unlocking) r
      (record g { errno = r })
resume f unlocking r g = (resting, record g { errno = r })
resume f resting r g = after_wait f resting (first f) r (record g { errno = r })
resume f p r g = (p, g)

-- Where a function goes on when it has printed its character.
abbrev pub after_print : Fun → ℕ → Point
after_print fun1 i = if i == 4 then unlocking else waiting i
after_print fun2 i = resting
after_print fun3 i = unlocking
after_print fun4 i = resting

unfoldable pub step : Fun → Point → Globals → Point × Globals
step f (printing i) g = (after_print f i, prints g (putchar (name f) ∷ []))
step f p g = (p, g)

-- The function that task `t` runs, by the order of the periods.
abbrev pub runs_fun : ℕ → Fun
runs_fun zero = fun4
runs_fun (suc zero) = fun1
runs_fun (suc (suc zero)) = fun2
runs_fun (suc (suc (suc t))) = fun3

abbrev pub dagger : (mutex1 : ℕ) → Program Point Globals
dagger mutex1 = record {
  request = λ t. request mutex1 (runs_fun t);
  resume = λ t. resume (runs_fun t);
  step = λ t. step (runs_fun t);
}

-- The array `tasks`; what lies behind it is `rest`.
unfoldable pub dagger_tasks : (address : Fun → ℕ) → (rest : ℕ → Task) → ℕ → Task
dagger_tasks address rest zero = record {
  lambda = address fun1;
  arg = b'@';
  stack_pos = 0xa2000000;
  c = 1;
  t = period_dev0;
}
dagger_tasks address rest (suc zero) = record {
  lambda = address fun2;
  arg = b'<';
  stack_pos = 0xa1800000;
  c = 1;
  t = period_dev1;
}
dagger_tasks address rest (suc (suc zero)) = record {
  lambda = address fun3;
  arg = b'>';
  stack_pos = 0xa1000000;
  c = 1;
  t = period_dev2;
}
dagger_tasks address rest (suc (suc (suc zero))) = record {
  lambda = address fun4;
  arg = b'*';
  stack_pos = 0xa0800000;
  c = 1;
  t = period_dev3;
}
dagger_tasks address rest (suc (suc (suc (suc i)))) = rest i

-- The line that `main` prints if `task_create` returns.
abbrev pub returns_from : Creation → Globals → Creation × Globals
returns_from (rejected r) g = (
  rejected r,
  record g { errno = r; console = g.console ++ (puts "Why did your code get here!\n" ∷ []) },
)
returns_from creation g = (creation, g)

-- `main`, for the address `ptr` of its array: what becomes of it, and the value of `mutex1`.
unfoldable pub dagger_main :
    Addresses
    → (ptr : ℕ) → (address : Fun → ℕ) → (rest : ℕ → Task) → Kernel
    → Globals
    → (Creation × Globals) × ℤ
unfolding checked_reply
dagger_main a ptr address rest k g =
    let (k₁, r) = mutex_create_syscall k in
    let (mutex1, errno) = checked_reply r g.errno in
    (
      returns_from (task_create_syscall a ptr (dagger_tasks address rest) 4 k₁)
          (record g { errno = errno }),
      mutex1,
    )
