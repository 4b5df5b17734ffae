-- ===== src/Time/Sleep.antt =====
-- How long `sleep_syscall` waits.
use embd_lab.Prelude.{
  ℕ, zero, suc, ◌+◌, ◌*◌, ◌/◌, ◌%◌, ◌^◌, ◌<◌, ◌≤◌, ◌≡◌, inl, inr, some, arith, ltb, Bool-cases,
}
use embd_lab.Time.{sleep_target, sleep_loop, sleep_syscall}

-- The read at which the loop stops: the first whose time is no less than the target.
pub record IsFirstRead (clock : ℕ → ℕ) (target from i : ℕ) : Type 0 where
  pub after : from ≤ i
  pub reached : target ≤ clock i
  pub early : (j : ℕ) → from ≤ j → j < i → clock j < target

sleep_loop-stops :
    (fuel from : ℕ) (clock : ℕ → ℕ) (target last : ℕ)
    → target ≤ clock last
    → from ≤ last
    → last < from + fuel
    → (i : ℕ) × (sleep_loop fuel from clock target ≡ some i) × IsFirstRead clock target from i
unfolding sleep_loop
sleep_loop-stops zero from clock target last h l m = absurd (omega arith)
sleep_loop-stops (suc fuel) from clock target last h l m =
    elim (Bool-cases (ltb (clock from) target)) [
      | inl early ↦
          let (i, e, first) =
            sleep_loop-stops fuel (from + 1) clock target last h (ground arith) (omega arith) in
          (
            i,
            rw early e,
            record {
              after = omega (arith, first.after);
              reached = first.reached;
              early = λ j lo hi. ground (arith, first.early j);
            },
          )
      | inr late ↦ (
        from,
        rw late,
        record {
          after = omega arith;
          reached = ground arith;
          early = λ j lo hi. absurd (omega arith);
        },
      )
    ]

-- If the clock reaches the target at some read, `sleep_syscall` ends, with enough fuel, at the first
-- read whose time is at least the start plus `msec / 10` ticks of 10 ms, rounded down, provided that
-- the milliseconds since boot fit in 32 bits.
pub sleep_syscall_lem :
    (fuel msec last : ℕ) (clock : ℕ → ℕ)
    → 0 < msec
    → msec + 10 * clock 0 < 2 ^ 32
    → clock 0 + msec / 10 ≤ clock last
    → 0 < last
    → last ≤ fuel
    → (i : ℕ) × (sleep_syscall fuel msec clock ≡ some i)
      × IsFirstRead clock (clock 0 + msec / 10) 1 i
unfolding sleep_syscall sleep_target
sleep_syscall_lem fuel msec last clock some_time fits reached l m =
    let exact : (msec + 10 * clock 0) % 2 ^ 32 / 10 ≡ clock 0 + msec / 10 = omega arith in
    let (i, e, first) =
      sleep_loop-stops fuel 1 clock (clock 0 + msec / 10) last reached (omega arith)
        (omega arith) in
    (i, ground arith, first)
