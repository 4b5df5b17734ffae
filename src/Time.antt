-- ===== src/Time.antt =====
-- kernel/syscall/time.c.
pub mod Sleep
use embd_lab.Prelude.{
  ℕ, zero, suc, ◌+◌, ◌*◌, ◌/◌, ◌%◌, ◌^◌, Option, none, some, ◌==◌, ltb, if◌then◌else◌,
}
use embd_lab.Kernel.{Kernel}

unfoldable pub time_syscall : Kernel → ℕ
time_syscall k = k.system_time

-- `(msec + SYSTIME_PRECISION * start_time) / SYSTIME_PRECISION`, in 32 bits.
unfoldable pub sleep_target : (msec start_time : ℕ) → ℕ
sleep_target msec start_time = (msec + 10 * start_time) % 2 ^ 32 / 10

-- The busy loop: `clock i` is what the `i`-th test reads from `system_time`, which the timer interrupt
-- advances. The result is how many reads it makes; `none` is out of fuel.
unfoldable pub sleep_loop : (fuel i : ℕ) → (clock : ℕ → ℕ) → (target : ℕ) → Option ℕ
sleep_loop zero i clock target = none
sleep_loop (suc fuel) i clock target =
    let more = sleep_loop fuel (i + 1) clock target in if ltb (clock i) target then more else some i

-- `clock 0` is the time at which the call starts.
unfoldable pub sleep_syscall : (fuel msec : ℕ) → (clock : ℕ → ℕ) → Option ℕ
sleep_syscall fuel msec clock =
    if msec == 0 then some 0 else sleep_loop fuel 1 clock (sleep_target msec (clock 0))
