-- ===== src/Device.antt =====
-- kernel/device.c: periodic devices with a queue of sleeping tasks each.
use embd_lab.Prelude.{
  ℕ, zero, suc, ◌+◌, ◌%◌, ◌^◌, Bool, true, false, Option, none, some, [], ◌∷◌, ◌==◌, ltb,
  if◌then◌else◌, get_or, update,
}
use embd_lab.RunQueue.{runqueue_add}
use embd_lab.Kernel.{Dev, Kernel, links, set_link, num_devices, os_max_tasks}
use embd_lab.Dispatch.{dispatch_save, dispatch_sleep}
use embd_lab.SleepQueue.{append_current}

-- `{100, 200, 500, 50}`: C sets the other elements to zero.
abbrev pub dev_freq : ℕ → ℕ
dev_freq i = get_or (100 ∷ 200 ∷ 500 ∷ 50 ∷ []) i 0

unfoldable pub dev_init : Kernel → Kernel
dev_init k = record k {
  devices = λ i.
      if ltb i num_devices
      then record { sleep_queue = none; next_match = (k.system_time + dev_freq i) % 2 ^ 32 }
      else k.devices i;
}

-- `dev_wait`, up to its switch; nothing is left to do after it. `none` is a fault.
unfoldable pub dev_wait : ℕ → Kernel → Option Kernel
dev_wait dev k = elim (append_current (k.devices dev).sleep_queue k) [
  | none ↦ none
  | some (head, k') ↦ some (
      dispatch_sleep (record k' {
        devices = update k'.devices dev (record (k'.devices dev) { sleep_queue = head });
      }))
]

-- `devices[i].sleep_queue = head`.
abbrev pub set_dev_queue : Kernel → ℕ → Option ℕ → ℕ → Dev
set_dev_queue k i head = update k.devices i (record (k.devices i) { sleep_queue = head })

-- The body of the inner loop of `dev_update`: the first task is unlinked and made runnable.
unfoldable pub wake : ℕ → ℕ → Kernel → Kernel
wake i old_header k = record k {
  devices = set_dev_queue k i (links k.system_tcb old_header);
  system_tcb = set_link k.system_tcb old_header none;
  queue = runqueue_add k.queue (some old_header) (k.system_tcb old_header).native_prio;
}

-- The inner loop, with the flag that says whether a task was woken. `none` is out of fuel.
unfoldable pub wake_all : ℕ → ℕ → Kernel × Bool → Option (Kernel × Bool)
wake_all zero i (k, flag) = none
wake_all (suc fuel) i (k, flag) = elim (k.devices i).sleep_queue [
  | none ↦ some (k, flag)
  | some old_header ↦ wake_all fuel i (wake i old_header k, true)
]

-- One device of the outer loop. No queue is longer than the number of tasks.
unfoldable pub signal : ℕ → ℕ → Kernel × Bool → Option (Kernel × Bool)
signal millis i (k, flag) =
    if millis == (k.devices i).next_match
    then wake_all (os_max_tasks + 1) i (
      record k {
        devices = update k.devices i (record (k.devices i) {
          next_match = ((k.devices i).next_match + dev_freq i) % 2 ^ 32;
        });
      },
      flag,
    )
    else some (k, flag)

-- The outer loop, with the rounds left and the device.
unfoldable pub signal_loop : (rounds : ℕ) → ℕ → ℕ → Kernel × Bool → Option (Kernel × Bool)
signal_loop zero millis i s = some s
signal_loop (suc rounds) millis i s = elim (signal millis i s) [
  | none ↦ none
  | some s' ↦ signal_loop rounds millis (i + 1) s'
]

-- `dev_update`, up to its switch, if it makes one. `none` is out of fuel.
unfoldable pub dev_update : ℕ → Kernel → Option Kernel
dev_update millis k = elim (signal_loop num_devices millis 0 (k, false)) [
  | none ↦ none
  | some (k', flag) ↦ some (if flag then dispatch_save k' else k')
]
