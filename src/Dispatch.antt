-- ===== src/Dispatch.antt =====
-- kernel/sched/ctx_switch.c, and the two switches of kernel/sched/ctx_switch_asm.S.
pub mod Switch
use embd_lab.Prelude.{ℕ, Bool, true, false, update}
use embd_lab.RunQueue.{highest_prio}
use embd_lab.Kernel.{Tcb, Kernel}

unfoldable pub dispatch_init : Kernel → ℕ → Kernel
dispatch_init k idle = record k { cur_tcb = idle }

unfoldable pub get_cur_prio : Kernel → ℕ
get_cur_prio k = (k.system_tcb k.cur_tcb).native_prio

unfoldable pub get_cur_tcb : Kernel → ℕ
get_cur_tcb k = k.cur_tcb

-- Stores r4 to r11, sp and lr in `cur`, and then loads them from `next`.
unfoldable pub ctx_switch_full : Kernel → (next cur : ℕ) → Kernel
ctx_switch_full k next cur =
    let tcbs = update k.system_tcb cur (record (k.system_tcb cur) { context = k.cpu }) in
    record k { system_tcb = tcbs; cpu = (tcbs next).context }

unfoldable pub ctx_switch_half : Kernel → (next : ℕ) → Kernel
ctx_switch_half k next = record k { cpu = (k.system_tcb next).context }

-- The state at the moment of the switch. The rest of the calling handler runs when the task that is
-- saved here is switched to again.
unfoldable pub dispatch_save : Kernel → Kernel
unfolding ctx_switch_full
dispatch_save k =
    let temp_tcb = k.cur_tcb in
    let highest_tcb = highest_prio k.queue in
    ctx_switch_full (record k { cur_tcb = highest_tcb }) highest_tcb temp_tcb

unfoldable pub dispatch_nosave : Kernel → Kernel
unfolding ctx_switch_half
dispatch_nosave k =
    let highest_tcb = highest_prio k.queue in
    ctx_switch_half (record k { cur_tcb = highest_tcb }) highest_tcb

unfoldable pub dispatch_sleep : Kernel → Kernel
unfolding ctx_switch_full
dispatch_sleep k =
    let temp_tcb = k.cur_tcb in
    let highest_tcb = highest_prio k.queue in
    ctx_switch_full (record k { cur_tcb = highest_tcb }) highest_tcb temp_tcb

unfoldable pub disable_interrupts : Kernel → Kernel
disable_interrupts k = record k { irq_enabled = false }

unfoldable pub enable_interrupts : Kernel → Kernel
enable_interrupts k = record k { irq_enabled = true }
