-- ===== src/Mutex.antt =====
-- kernel/lock/mutex.c. An index is a C `int`; reading `gtMutex` at a negative one is a fault.
pub mod Create
use embd_lab.Prelude.{
  ℕ, zero, suc, ◌+◌, ℤ, pos, negsuc, Bool, true, false, Option, none, some, ◌==◌, ltb, leb, ◌||◌,
  if◌then◌else◌, update,
}
use embd_lab.RunQueue.{runqueue_add}
use embd_lab.Kernel.{Mutex, Kernel, links, set_link, os_num_mutex}
use embd_lab.Dispatch.{get_cur_tcb, dispatch_save, disable_interrupts, enable_interrupts}
use embd_lab.SleepQueue.{append_current}
use embd_lab.Syscall.{Outcome, returned, switched, fault, eperm, einval, edeadlock, minus_enomem}

unfoldable pub mutex_init : Kernel → Kernel
mutex_init k = record k {
  gt_mutex = λ i.
      if ltb i os_num_mutex
      then record { b_available = true; p_holding_tcb = none; b_lock = false; p_sleep_queue = none }
      else k.gt_mutex i;
}

-- The loop of `mutex_create_syscall`, with the rounds left and the index.
unfoldable pub create_loop : (rounds index : ℕ) → Kernel → Kernel × ℤ
create_loop zero index k = (k, minus_enomem)
create_loop (suc rounds) index k =
    let rest = create_loop rounds (index + 1) k in
    if (k.gt_mutex index).b_available
    then (
      record k {
        gt_mutex = update k.gt_mutex index (record (k.gt_mutex index) { b_available = false });
      },
      pos index,
    )
    else rest

unfoldable pub mutex_create_syscall : Kernel → Kernel × ℤ
mutex_create_syscall k = create_loop os_num_mutex 0 k

-- `pHolding_Tcb == get_cur_tcb()`.
abbrev pub is_holder : Option ℕ → ℕ → Bool
is_holder none tcb = false
is_holder (some holder) tcb = holder == tcb

-- The end of `mutex_lock_syscall`: the running task holds the mutex.
unfoldable pub take_mutex : ℕ → Kernel → Kernel
unfolding get_cur_tcb
take_mutex m k = record k {
  gt_mutex =
      update k.gt_mutex m
        (record (k.gt_mutex m) { b_lock = true; p_holding_tcb = some (get_cur_tcb k) });
}

-- What follows `dispatch_save()` in `mutex_lock_syscall`, when the task runs again.
unfoldable pub mutex_lock_resume : ℕ → Kernel → Outcome
unfolding disable_interrupts enable_interrupts
mutex_lock_resume m k = returned (enable_interrupts (take_mutex m (disable_interrupts k))) (pos 0)

-- The branch of a locked mutex, up to the switch.
unfoldable pub block_on : ℕ → Kernel → Outcome
unfolding enable_interrupts
block_on m k = elim (append_current (k.gt_mutex m).p_sleep_queue k) [
  | none ↦ fault
  | some (head, k') ↦ switched (
      dispatch_save (
        enable_interrupts (record k' {
          gt_mutex = update k'.gt_mutex m (record (k'.gt_mutex m) { p_sleep_queue = head });
        })))
]

unfoldable pub mutex_lock_syscall : ℤ → Kernel → Outcome
unfolding disable_interrupts enable_interrupts get_cur_tcb
mutex_lock_syscall (negsuc _) k = fault
mutex_lock_syscall (pos m) k =
    let k₁ = disable_interrupts k in
    if leb os_num_mutex m || (k₁.gt_mutex m).b_available
    then returned (enable_interrupts k₁) einval
    else if is_holder (k₁.gt_mutex m).p_holding_tcb (get_cur_tcb k₁)
    then returned (enable_interrupts k₁) edeadlock
    else if (k₁.gt_mutex m).b_lock
    then block_on m k₁
    else returned (enable_interrupts (take_mutex m k₁)) (pos 0)

-- The end of `mutex_unlock_syscall`, for the head of the mutex's sleep queue.
unfoldable pub release : ℕ → Option ℕ → Kernel → Kernel
release m none k = record k {
  gt_mutex = update k.gt_mutex m (record (k.gt_mutex m) { b_lock = false; p_holding_tcb = none });
}
release m (some next_tcb) k = record k {
  gt_mutex = update k.gt_mutex m (record (k.gt_mutex m) {
    p_sleep_queue = links k.system_tcb next_tcb;
    p_holding_tcb = some next_tcb;
  });
  system_tcb = set_link k.system_tcb next_tcb none;
  queue = runqueue_add k.queue (some next_tcb) (k.system_tcb next_tcb).native_prio;
}

unfoldable pub mutex_unlock_syscall : ℤ → Kernel → Outcome
unfolding disable_interrupts enable_interrupts get_cur_tcb
mutex_unlock_syscall (negsuc _) k = fault
mutex_unlock_syscall (pos m) k =
    let k₁ = disable_interrupts k in
    if leb os_num_mutex m || (k₁.gt_mutex m).b_available
    then returned (enable_interrupts k₁) einval
    else if is_holder (k₁.gt_mutex m).p_holding_tcb (get_cur_tcb k₁)
    then returned (enable_interrupts (release m (k₁.gt_mutex m).p_sleep_queue k₁)) (pos 0)
    else returned (enable_interrupts k₁) eperm
