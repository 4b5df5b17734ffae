-- ===== src/Irq/Quiet.antt =====
-- Timer interrupts while no task sleeps.
use embd_lab.Prelude.{
  ℕ, zero, suc, ◌+◌, ◌-◌, ◌%◌, ◌^◌, ◌<◌, ◌≡◌, refl, ◌∙◌, false, none, some, arith, ◌==◌, ltb, inl,
  inr, Bool-cases, update,
}
use embd_lab.Kernel.{Kernel, num_devices, os_num_mutex, os_max_tasks}
use embd_lab.Device.{dev_freq, wake_all, signal, signal_loop, dev_update}
use embd_lab.Irq.{c_irq_handler, ticks}
use embd_lab.Sched.Start.{IsQuiet}

-- Only the times of the devices have changed.
record OnlyMatches (k k' : Kernel) : Type 0 where
  same_tcbs : k'.system_tcb ≡ k.system_tcb
  same_mutex : k'.gt_mutex ≡ k.gt_mutex
  same_heads : (d : ℕ) → (k'.devices d).sleep_queue ≡ (k.devices d).sleep_queue
  same_time : k'.system_time ≡ k.system_time

no_device_sleeps : {k : Kernel} → IsQuiet k → (d : ℕ) → d < 63 → (k.devices d).sleep_queue ≡ none
no_device_sleeps {k} quiet d small =
    let device : ltb (d + os_num_mutex) os_num_mutex ≡ false = ground arith in
    let same : d + os_num_mutex - os_num_mutex ≡ d = omega arith in
    rw (device, same) at (quiet.heads (d + os_num_mutex) (omega arith))

-- Device `i` has fired.
fired : ℕ → Kernel → Kernel
fired i k = record k {
  devices =
      update k.devices i
        (record (k.devices i) { next_match = ((k.devices i).next_match + dev_freq i) % 2 ^ 32 });
}

wake_all-empty :
    (fuel i : ℕ) (k : Kernel)
    → (k.devices i).sleep_queue ≡ none
    → wake_all (suc fuel) i (k, false) ≡ some (k, false)
unfolding wake_all
wake_all-empty fuel i k e = rw (e, wake_all) refl

signal-OnlyMatches :
    (millis i : ℕ) (k : Kernel)
    → (k.devices i).sleep_queue ≡ none
    → (k' : Kernel) × (signal millis i (k, false) ≡ some (k', false)) × OnlyMatches k k'
unfolding signal fired
signal-OnlyMatches millis i k empty = elim (Bool-cases (millis == (k.devices i).next_match)) [
  | inl fires ↦
      let still_empty : ((fired i k).devices i).sleep_queue ≡ none = ground (arith, empty) in
      (
        fired i k,
        rw fires (wake_all-empty os_max_tasks i (fired i k) still_empty),
        record {
          same_tcbs = refl;
          same_mutex = refl;
          same_heads = λ d. ground arith;
          same_time = refl;
        },
      )
  | inr not_now ↦ (
    k,
    rw not_now refl,
    record { same_tcbs = refl; same_mutex = refl; same_heads = λ d. refl; same_time = refl },
  )
]

signal_loop-OnlyMatches :
    (rounds millis i : ℕ) (k : Kernel)
    → ((d : ℕ) → d < i + rounds → (k.devices d).sleep_queue ≡ none)
    → (k' : Kernel) × (signal_loop rounds millis i (k, false) ≡ some (k', false)) × OnlyMatches k k'
unfolding signal_loop
signal_loop-OnlyMatches zero millis i k empty = (
  k,
  refl,
  record { same_tcbs = refl; same_mutex = refl; same_heads = λ d. refl; same_time = refl },
)
signal_loop-OnlyMatches (suc rounds) millis i k empty =
    let (k₁, e₁, o₁) = signal-OnlyMatches millis i k (empty i (omega arith)) in
    let (k₂, e₂, o₂) =
      signal_loop-OnlyMatches rounds millis (i + 1) k₁
        (λ d h. o₁.same_heads d ∙ empty d (omega arith)) in
    (
      k₂,
      rw (e₁, signal_loop) e₂,
      record {
        same_tcbs = o₂.same_tcbs ∙ o₁.same_tcbs;
        same_mutex = o₂.same_mutex ∙ o₁.same_mutex;
        same_heads = λ d. o₂.same_heads d ∙ o₁.same_heads d;
        same_time = o₂.same_time ∙ o₁.same_time;
      },
    )

-- While no task sleeps, an interrupt only advances the clock: no other task runs after it.
pub interrupt-IsQuiet :
    {k : Kernel}
    → IsQuiet k
    → k.system_time + 1 < 2 ^ 32
    → (k' : Kernel) × (c_irq_handler k ≡ some k')
      × IsQuiet k'
      × (k'.system_time ≡ k.system_time + 1)
unfolding c_irq_handler dev_update
interrupt-IsQuiet {k} quiet fits =
    let now = (k.system_time + 1) % 2 ^ 32 in
    let (k', e, o) =
      signal_loop-OnlyMatches num_devices now 0 (record k { system_time = now })
        (λ d h. no_device_sleeps quiet d (omega arith)) in
    (
      k',
      rw (e, c_irq_handler, dev_update) refl,
      record {
        unlinked = λ b. rw (o.same_tcbs) (quiet.unlinked b);
        heads = λ w h. elim (Bool-cases (ltb w os_num_mutex)) [
          | inl mutex ↦ rw (mutex, o.same_mutex) (rw mutex at (quiet.heads w h))
          | inr device ↦
              rw (device, o.same_heads (w - os_num_mutex)) (rw device at (quiet.heads w h))
        ];
        unlocked = λ m. rw (o.same_mutex) (quiet.unlocked m);
        unheld = λ m. rw (o.same_mutex) (quiet.unheld m);
      },
      o.same_time ∙ omega arith,
    )

pub ticks-IsQuiet :
    (n : ℕ) {k : Kernel}
    → IsQuiet k
    → k.system_time + n < 2 ^ 32
    → (k' : Kernel) × (ticks n k ≡ some k') × IsQuiet k' × (k'.system_time ≡ k.system_time + n)
unfolding ticks
ticks-IsQuiet zero {k} quiet fits = (k, refl, quiet, omega arith)
ticks-IsQuiet (suc n) {k} quiet fits =
    let (k₁, e₁, quiet₁, time₁) = interrupt-IsQuiet quiet (omega arith) in
    let (k₂, e₂, quiet₂, time₂) = ticks-IsQuiet n quiet₁ (omega (arith, time₁)) in
    (k₂, rw (e₁, ticks) e₂, quiet₂, omega (arith, time₁, time₂))
