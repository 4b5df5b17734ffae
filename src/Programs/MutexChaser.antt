-- ===== src/Programs/MutexChaser.antt =====
-- tasks/mutex_chaser/mutex_chaser.c: four tasks that take turns at 31 mutexes, and change the number
-- behind each with their own operation.
pub mod Section
pub mod Updates
pub mod Pairs
pub mod First
pub mod Start
use Prim.Native.String.{String}
use embd_lab.Prelude.{
  ℕ, zero, suc, ◌+◌, ◌-◌, ◌*◌, ◌%◌, ◌^◌, ℤ, pos, negsuc, Bool, true, false, List, [], ◌∷◌, ◌++◌,
  ◌==◌, ltb, if◌then◌else◌, update,
}
use embd_lab.Syscall.{einval, eperm}
use embd_lab.Programs.{Print, putchar, puts, printf, is_code, is_negative}
use embd_lab.Programs.Machine.{Request, mutex_lock, mutex_unlock, wait_event, work, Program}

abbrev pub mutex_num : ℕ
mutex_num = 32

abbrev pub init_val : ℕ
init_val = 2

-- The four functions: `fun1` to `fun4`.
pub data Fun : Type 0 where
  fun1 fun2 fun3 fun4 : Fun

-- What a function writes for the value that it reads, with `fun1_opval` to `fun4_opval`, as a 32-bit
-- word.
unfoldable pub operation : Fun → ℕ → ℕ
operation fun1 v = (v + 3) % 2 ^ 32
operation fun2 v = (v * 11) % 2 ^ 32
operation fun3 v = (v + 2 ^ 32 - 7) % 2 ^ 32
operation fun4 v = (v * 13) % 2 ^ 32

abbrev pub device : Fun → ℕ
device fun1 = 3
device fun2 = 0
device fun3 = 1
device fun4 = 2

-- The character in `data`: b'1' to b'4'.
abbrev pub name : Fun → ℕ
name fun1 = b'1'
name fun2 = b'2'
name fun3 = b'3'
name fun4 = b'4'

abbrev pub dev_failed : Fun → String
dev_failed fun1 = "Dev 3 failed"
dev_failed fun2 = "Dev 0 failed"
dev_failed fun3 = "Dev 1 failed"
dev_failed fun4 = "Dev 2 failed"

abbrev pub yes_str : String
yes_str = "\u{1b}[32;1mYes!\u{1b}[0m\n"

abbrev pub no_str : String
no_str = "\u{1b}[31;1mNo!\u{1b}[0m\n"

abbrev pub test_done : String
test_done = "\u{1b}[32;1mTEST PASSED SUCCESSFULLY!\u{1b}[0m\n"

-- `result_val`, which `main` computes.
unfoldable pub result_val : ℕ
unfolding operation
result_val = operation fun4 (operation fun3 (operation fun2 (operation fun1 init_val)))

-- Where a function is, with `cur_mutex`, the value read, or `i`.
pub data Point : Type 0 where
  testing : ℕ → Point
  locking : ℕ → Point
  reading : ℕ → Point
  writing : ℕ → ℕ → Point
  unlocking : ℕ → Point
  failed_unlock : Point
  waiting : ℕ → Point
  checking : ℕ → Point
  resting : Point
  panicked : Point

pub record Globals : Type 0 where
  pub mutex_val : ℕ → ℕ
  pub errno : ℤ
  pub console : List Print

abbrev pub prints : Globals → List Print → Globals
prints g ps = record g { console = g.console ++ ps }

-- `panic(str)`.
abbrev pub panic : String → Globals → Point × Globals
panic str g = (panicked, prints g (puts str ∷ []))

abbrev pub is_nonzero : ℤ → Bool
is_nonzero (pos n) = if n == 0 then false else true
is_nonzero (negsuc _) = true

unfoldable pub request : Fun → Point → Request
request f (locking cur) = mutex_lock cur
request f (unlocking cur) = mutex_unlock cur
request f (waiting cur) = wait_event (device f)
request f resting = wait_event (device f)
request f _ = work

-- Only `fun1` looks at `errno` when it cannot unlock.
unfoldable pub after_unlock : Fun → ℕ → Globals → ℤ → Point × Globals
after_unlock fun1 cur g r = if is_nonzero r then (failed_unlock, g) else (waiting (cur + 1), g)
after_unlock _ cur g r =
    if is_nonzero r then panic "Failed to release mutex" g else (waiting (cur + 1), g)

-- The result of a call; the stubs of these three store it in `errno`.
unfoldable pub resume : Fun → Point → ℤ → Globals → Point × Globals
unfolding after_unlock
resume f (locking cur) r g =
    let g' = record g { errno = r } in
    if is_nonzero r then panic "Failed to acquire mutex" g' else (reading cur, g')
resume f (unlocking cur) r g = after_unlock f cur (record g { errno = r }) r
resume f (waiting cur) r g =
    let g' = record g { errno = r } in
    if is_negative r then panic (dev_failed f) g' else (testing cur, g')
resume f resting r g =
    let g' = record g { errno = r } in
    if is_negative r then panic (dev_failed f) g' else (resting, g')
resume f p r g = (p, g)

-- Where a function goes when its loop is over.
abbrev pub after_loop : Fun → Point
after_loop fun4 = checking 0
after_loop _ = resting

-- A step between two calls. `mutex_val[cur]` is read and written in two of them.
unfoldable pub step : Fun → Point → Globals → Point × Globals
unfolding operation result_val
step f (testing cur) g =
    if ltb cur mutex_num
    then (locking cur, prints g (putchar (name f) ∷ printf ">>mutex %d\n" (cur ∷ []) ∷ []))
    else (after_loop f, g)
step f (reading cur) g = (writing cur (g.mutex_val cur), g)
step f (writing cur v) g =
    (unlocking cur, record g { mutex_val = update g.mutex_val cur (operation f v) })
step f failed_unlock g =
    let g₁ = if is_code g.errno einval then prints g (puts "EINVAL" ∷ []) else g in
    let g₂ = if is_code g.errno eperm then prints g₁ (puts "EPERM" ∷ []) else g₁ in
    panic "Failed to release mutex" g₂
step f (checking i) g =
    if ltb i mutex_num
    then (
      checking (i + 1),
      prints g (
          printf "Final mutex%d value %d == result value %d\n" (i ∷ g.mutex_val i ∷ result_val ∷ [])
          ∷ puts (if g.mutex_val i == result_val then yes_str else no_str)
          ∷ []),
    )
    else (resting, prints g (puts test_done ∷ []))
step f p g = (p, g)

-- The function that task `t` runs, by the order of the periods.
abbrev pub runs_fun : ℕ → Fun
runs_fun zero = fun1
runs_fun (suc zero) = fun2
runs_fun (suc (suc zero)) = fun3
runs_fun (suc (suc (suc t))) = fun4

abbrev pub mutex_chaser : Program Point Globals
mutex_chaser = record {
  request = λ t. request (runs_fun t);
  resume = λ t. resume (runs_fun t);
  step = λ t. step (runs_fun t);
}
