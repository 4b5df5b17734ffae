-- ===== src/Programs/SysErr.antt =====
-- tasks/sys_err/sys_err.c: one task that checks the error codes of the system calls. Any number of
-- timer interrupts can come before each call.
pub mod Steady
pub mod Passes
pub mod Start
use Prim.Native.String.{String}
use embd_lab.Prelude.{
  ℕ, zero, suc, ◌+◌, ◌-◌, ◌^◌, ℤ, pos, negsuc, Bool, Option, none, some, List, [], ◌∷◌, ◌++◌, ◌==◌,
  if◌then◌else◌,
}
use embd_lab.Kernel.{Task, Kernel}
use embd_lab.Syscall.{Outcome, returned, switched, fault, einval, efault, eperm, edeadlock}
use embd_lab.Mutex.{mutex_create_syscall, mutex_lock_syscall, mutex_unlock_syscall}
use embd_lab.Sched.{Addresses}
use embd_lab.Proc.{Creation, rejected, crashed, begun, task_create_syscall, event_wait_syscall}
use embd_lab.Irq.{ticks}
use embd_lab.Programs.{Print, puts, printf, checked_reply, is_code, period_dev0, enomem}

-- The machine as the task sees it, with the number of calls made so far.
pub record Session : Type 0 where
  pub kernel : Kernel
  pub errno : ℤ
  pub console : List Print
  pub calls : ℕ

-- `none` is a call that does not return here.
abbrev pub M : Type 0 → Type 0
M A = Session → Option (A × Session)

abbrev pub and_then : {A B : Type 0} → Option (A × Session) → (A → M B) → Option (B × Session)
and_then none f = none
and_then (some (a, s)) f = f a s

infixl 5 ◌>>=◌ ◌>>◌
abbrev pub ◌>>=◌ : {A B : Type 0} → M A → (A → M B) → M B
◌>>=◌ m f s = and_then (m s) f

abbrev pub ◌>>◌ : {A B : Type 0} → M A → M B → M B
m >> k = m >>= λ _. k

abbrev pub pure : {A : Type 0} → A → M A
pure a s = some (a, s)

unfoldable pub get_errno : M ℤ
get_errno s = some (s.errno, s)

-- Prints lines.
unfoldable pub output : List Print → M (Unit {0})
output ps s = some (tt, record s { console = s.console ++ ps })

abbrev pub then_handle : {A : Type 0} → Option Kernel → (Kernel → Option A) → Option A
then_handle none handler = none
then_handle (some k) handler = handler k

module _ (interrupts : ℕ → ℕ) where
  -- The handler runs after the interrupts that come before the call.
  abbrev pub enter : {A : Type 0} → (Kernel → Option A) → Session → Option A
  enter handler s = then_handle (ticks (interrupts s.calls) s.kernel) handler

  abbrev pub outcome : Outcome → Option (Kernel × ℤ)
  outcome (returned k r) = some (k, r)
  outcome (switched k) = none
  outcome fault = none

  -- The stubs that store every result in `errno`.
  abbrev pub store_reply : Option (Kernel × ℤ) → M ℤ
  store_reply none s = none
  store_reply (some (k, r)) s = some (r, record s { kernel = k; errno = r; calls = s.calls + 1 })

  unfoldable pub mutex_lock : ℤ → M ℤ
  mutex_lock m s = store_reply (enter (λ k. outcome (mutex_lock_syscall m k)) s) s

  unfoldable pub mutex_unlock : ℤ → M ℤ
  mutex_unlock m s = store_reply (enter (λ k. outcome (mutex_unlock_syscall m k)) s) s

  unfoldable pub event_wait : ℕ → M ℤ
  event_wait dev s = store_reply (enter (λ k. outcome (event_wait_syscall dev k)) s) s

  abbrev pub check_reply : Option (Kernel × ℤ) → M ℤ
  check_reply none s = none
  check_reply (some (k, r)) s =
      let (value, errno) = checked_reply r s.errno in
      some (value, record s { kernel = k; errno = errno; calls = s.calls + 1 })

  unfoldable pub mutex_create : M ℤ
  unfolding checked_reply
  mutex_create s = check_reply (enter (λ k. some (mutex_create_syscall k)) s) s

abbrev pub report_suc : String → List Print
report_suc str = puts str ∷ puts "        SUCCESS ****************\n" ∷ []

abbrev pub report_fail : String → List Print
report_fail str = puts str ∷ puts "        FAIL xxxxxxxxxxxxxxxxxx\n" ∷ []

-- An `int` as a 32-bit word.
abbrev pub word : ℤ → ℕ
word (pos n) = n
word (negsuc n) = 2 ^ 32 - 1 - n

-- What `check_return` prints.
unfoldable pub check_lines : (r expected : ℤ) → String → List Print
check_lines r expected str =
    if is_code r expected
    then report_suc str
    else printf "expect %d, get %d\n" (word expected ∷ word r ∷ []) ∷ report_fail str

abbrev pub check_return : (r expected : ℤ) → String → M (Unit {0})
check_return r expected str = output (check_lines r expected str)

module _ (interrupts : ℕ → ℕ) where
  -- The loop at the start of `fun1`.
  unfoldable pub create_all : (rounds : ℕ) → M (Unit {0})
  create_all zero = pure tt
  create_all (suc rounds) = do ind ← mutex_create interrupts; create_all rounds

  -- What follows the loop, up to the endless loop at the end.
  unfoldable pub checks : M (Unit {0})
  checks = do
    ret2 ← mutex_create interrupts
    errno ← get_errno
    check_return errno enomem "3. Mutex Create returns ENOMEM"
    ret2 ← mutex_unlock interrupts (pos 165)
    errno ← get_errno
    check_return errno einval "4. Mutex Unlock return EINVAL"
    ret2 ← mutex_unlock interrupts (pos 23)
    errno ← get_errno
    check_return errno eperm "5. Mutex Unlock return EPERM"
    ret2 ← mutex_lock interrupts (pos 124)
    errno ← get_errno
    check_return errno einval "6. Mutex Lock return EINVAL"
    ret2 ← mutex_lock interrupts (pos 4)
    check_return ret2 (pos 0) "7. Mutex Lock return success"
    ret2 ← mutex_lock interrupts (pos 4)
    errno ← get_errno
    check_return errno edeadlock "8. Mutex Lock return EDEADLOCK"
    ret2 ← mutex_unlock interrupts (pos 4)
    check_return ret2 (pos 0) "9. Mutex Unlock return success"
    ret2 ← event_wait interrupts 10000
    errno ← get_errno
    check_return errno einval "10. Event Wait return EINVAL"
    output (puts "TEST END!\n" ∷ [])

  unfoldable pub fun1 : M (Unit {0})
  unfolding create_all checks
  fun1 = do create_all 32; checks

-- The array `tasks`; what lies behind it is `rest`.
unfoldable pub sys_err_tasks : (address : ℕ) → (rest : ℕ → Task) → ℕ → Task
sys_err_tasks address rest zero = record {
  lambda = address;
  arg = b'@';
  stack_pos = 0xa2000000;
  c = 1;
  t = period_dev0;
}
sys_err_tasks address rest (suc i) = rest i

-- `task_create` returns, with its result in `errno`, or starts the tasks.
abbrev pub if_returned : Creation → Session → (Session → Creation × Session) → Creation × Session
if_returned (rejected r) s next = next (record s { errno = r })
if_returned crashed s next = (crashed, s)
if_returned (begun tasks k) s next = (begun tasks k, s)

abbrev pub prints : Session → List Print → Session
prints s ps = record s { console = s.console ++ ps }

-- `main`, for the address `ptr` of its array and what stands at 0xdeadbeef. No interrupt comes before
-- the task is started.
unfoldable pub sys_err_main :
    Addresses → (ptr address : ℕ) → (rest beef : ℕ → Task) → Session → Creation × Session
unfolding sys_err_tasks
sys_err_main a ptr address rest beef s =
    let tasks = sys_err_tasks address rest in
    let s₁ = prints s (puts "TEST BEGIN!\n" ∷ []) in
    if_returned (task_create_syscall a ptr tasks 65 s₁.kernel) s₁ λ s₂.
      let s₃ = prints s₂ (check_lines s₂.errno einval "1. Test create return EINVAL") in
      if_returned (task_create_syscall a 0xdeadbeef beef 30 s₃.kernel) s₃ λ s₄.
        let s₅ = prints s₄ (check_lines s₄.errno efault "2. Test create return EFAULT") in
        if_returned (task_create_syscall a ptr tasks 1 s₅.kernel) s₅
          λ s₆. (rejected (pos 0), prints s₆ (puts "TEST END!\n" ∷ []))
