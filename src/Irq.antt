-- ===== src/Irq.antt =====
-- The timer interrupt, `C_IRQ_Handler` of kernel/irq.c, without its writes to the timer's registers.
pub mod Period
pub mod Quiet
use embd_lab.Prelude.{ℕ, zero, suc, ◌+◌, ◌%◌, ◌^◌, Option, none, some}
use embd_lab.Kernel.{Kernel}
use embd_lab.Device.{dev_update}

-- `none` is out of fuel in `dev_update`.
unfoldable pub c_irq_handler : Kernel → Option Kernel
c_irq_handler k =
    let now = (k.system_time + 1) % 2 ^ 32 in dev_update now (record k { system_time = now })

-- A number of interrupts, with no system call between them.
unfoldable pub ticks : ℕ → Kernel → Option Kernel
ticks zero k = some k
ticks (suc n) k = elim (c_irq_handler k) [ none ↦ none | some k' ↦ ticks n k' ]
