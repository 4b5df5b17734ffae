-- ===== src/Irq/Period.antt =====
-- When the tasks that sleep on a device are woken.
use embd_lab.Prelude.{ℕ, zero, suc, ◌+◌, ◌-◌, ◌%◌, ◌^◌, ◌<◌, ◌≤◌, ◌≡◌, refl, some, List, arith}
use embd_lab.Kernel.{Kernel, num_devices}
use embd_lab.Device.{dev_freq, dev_init}
use embd_lab.Irq.{c_irq_handler, ticks}
use embd_lab.Waiting.{Home, ready, waits}
use embd_lab.WellFormed.{IsWellFormed}
use embd_lab.WellFormed.Sleep.{device_queue}
use embd_lab.WellFormed.Signal.{woken_queues, woken_homes, Rescheduled, Updated, dev_update_lem}

-- The four devices with a period are due within it, and not now.
pub record IsOnTime (k : Kernel) : Type 0 where
  pub after : (d : ℕ) → d < 4 → k.system_time < (k.devices d).next_match
  pub within : (d : ℕ) → d < 4 → (k.devices d).next_match ≤ k.system_time + dev_freq d

pub dev_freq_bounds : (d : ℕ) → d < 4 → (0 < dev_freq d) × (dev_freq d ≤ 500)
dev_freq_bounds zero h = omega arith
dev_freq_bounds (suc zero) h = omega arith
dev_freq_bounds (suc (suc zero)) h = omega arith
dev_freq_bounds (suc (suc (suc zero))) h = omega arith
dev_freq_bounds (suc (suc (suc (suc d)))) h = absurd (omega arith)

-- `dev_init` sets the four devices with a period on time.
pub dev_init-IsOnTime : (k : Kernel) → k.system_time + 500 < 2 ^ 32 → IsOnTime (dev_init k)
unfolding dev_init
dev_init-IsOnTime k h = record {
  after = λ d l. ground (arith, dev_freq_bounds d);
  within = λ d l. ground (arith, dev_freq_bounds d);
}

-- One interrupt: time advances, and the state is as `dev_update` leaves it.
record Ticked (k k' : Kernel) (waiting : ℕ → List ℕ) (home : ℕ → Home) : Type 0 where
  result : c_irq_handler k ≡ some k'
  time : k'.system_time ≡ k.system_time + 1
  wf :
      IsWellFormed k'
        (woken_queues k (k.system_time + 1) waiting)
        (woken_homes k (k.system_time + 1) home)
  next_times : Rescheduled (k.system_time + 1) k k'

pub IsWellFormed-time :
    {k : Kernel} {waiting : ℕ → List ℕ} {home : ℕ → Home} (now : ℕ)
    → IsWellFormed k waiting home
    → IsWellFormed (record k { system_time = now }) waiting home
IsWellFormed-time now wf = record {
  sound = record {
    placed = wf.sound.placed;
    owned = wf.sound.owned;
    idle_ready = wf.sound.idle_ready;
  };
  running = record { small = wf.running.small; is_ready = wf.running.is_ready };
}

-- An interrupt always ends, and leaves what `dev_update` leaves at the new time.
pub c_irq_handler_lem :
    {k : Kernel} {waiting : ℕ → List ℕ} {home : ℕ → Home}
    → IsWellFormed k waiting home
    → (k' : Kernel) × (c_irq_handler k ≡ some k')
      × Updated
          ((k.system_time + 1) % 2 ^ 32)
          (record k { system_time = (k.system_time + 1) % 2 ^ 32 })
          k'
          waiting
          home
unfolding c_irq_handler
c_irq_handler_lem {k} wf =
    let now = (k.system_time + 1) % 2 ^ 32 in dev_update_lem now (IsWellFormed-time now wf)

c_irq_handler-Ticked :
    {k : Kernel} {waiting : ℕ → List ℕ} {home : ℕ → Home}
    → IsWellFormed k waiting home
    → k.system_time + 1 < 2 ^ 32
    → (k' : Kernel) × Ticked k k' waiting home
unfolding c_irq_handler
c_irq_handler-Ticked {k} wf h =
    let now = k.system_time + 1 in
    let no_wrap : (k.system_time + 1) % 2 ^ 32 ≡ now = omega arith in
    let (k', e, u) = dev_update_lem now (IsWellFormed-time now wf) in
    (k', record { result = rw no_wrap e; time = u.same_time; wf = u.wf; next_times = u.next_times })

-- From a well-formed state in which the four devices with a period are on time, and until shortly before
-- the clock wraps, an interrupt ends and keeps them on time, in a well-formed state.
pub c_irq_handler-IsOnTime :
    {k : Kernel} {waiting : ℕ → List ℕ} {home : ℕ → Home}
    → IsWellFormed k waiting home
    → IsOnTime k
    → k.system_time + 501 < 2 ^ 32
    → (k' : Kernel) × (c_irq_handler k ≡ some k')
      × IsOnTime k'
      × IsWellFormed k'
          (woken_queues k (k.system_time + 1) waiting)
          (woken_homes k (k.system_time + 1) home)
c_irq_handler-IsOnTime {k} wf on_time h =
    let (k', t) = c_irq_handler-Ticked wf (omega arith) in
    (
      k',
      t.result,
      record {
        after = λ d l.
            ground
              (arith, t.time, t.next_times d, on_time.after d, on_time.within d, dev_freq_bounds d);
        within = λ d l.
            ground
              (arith, t.time, t.next_times d, on_time.after d, on_time.within d, dev_freq_bounds d);
      },
      t.wf,
    )

-- The tasks of a device are ready after as many interrupts as lie before its next time.
ticks_wake :
    (n d t : ℕ) {k : Kernel} {waiting : ℕ → List ℕ} {home : ℕ → Home}
    → IsWellFormed k waiting home
    → d < num_devices
    → home t ≡ waits (device_queue d)
    → k.system_time + suc n ≡ (k.devices d).next_match
    → k.system_time + suc n < 2 ^ 32
    → (k' : Kernel) × (waiting' : ℕ → List ℕ) × (home' : ℕ → Home) × (ticks (suc n) k ≡ some k')
      × IsWellFormed k' waiting' home'
      × (home' t ≡ ready)
unfolding ticks
ticks_wake zero d t {k} {waiting} {home} wf in_range asleep match h =
    let (k', tick) = c_irq_handler-Ticked wf (omega arith) in
    (k', _, _, rw (tick.result, ticks), tick.wf, ground arith)
ticks_wake (suc n) d t {k} {waiting} {home} wf in_range asleep match h =
    let (k', tick) = c_irq_handler-Ticked wf (omega arith) in
    let still : woken_homes k (k.system_time + 1) home t ≡ waits (device_queue d) = ground arith in
    let next : k'.system_time + suc n ≡ (k'.devices d).next_match =
      ground (arith, tick.time, tick.next_times d in_range) in
    let (k₂, waiting₂, home₂, e, wf₂, awake) =
      ticks_wake n d t tick.wf in_range still next (omega (arith, tick.time)) in
    (k₂, waiting₂, home₂, rw (tick.result, ticks) e, wf₂, awake)

-- From a well-formed state in which the four devices with a period are on time, and until shortly before
-- the clock wraps, a task that sleeps on one of them is ready after some number of interrupts that is at
-- most the period, and the state is well-formed then.
pub ticks_wake_within_period :
    (d t : ℕ) {k : Kernel} {waiting : ℕ → List ℕ} {home : ℕ → Home}
    → IsWellFormed k waiting home
    → IsOnTime k
    → k.system_time + 500 < 2 ^ 32
    → d < 4
    → home t ≡ waits (device_queue d)
    → (n : ℕ) × (n ≤ dev_freq d)
      × ((k' : Kernel) × (waiting' : ℕ → List ℕ) × (home' : ℕ → Home) × (ticks n k ≡ some k')
          × IsWellFormed k' waiting' home'
          × (home' t ≡ ready))
ticks_wake_within_period d t {k} wf on_time h small asleep =
    let left = (k.devices d).next_match - k.system_time - 1 in
    (
      suc left,
      omega (arith, on_time.after d small, on_time.within d small),
      ticks_wake left d t wf (omega arith) asleep (omega (arith, on_time.after d small))
          (omega (arith, on_time.after d small, on_time.within d small, dev_freq_bounds d small)),
    )

-- A device whose next time has passed wakes nobody: from a well-formed state, a task that sleeps on it
-- still sleeps on it after any number of interrupts before the clock wraps.
pub ticks_never_wake :
    (n d t : ℕ) {k : Kernel} {waiting : ℕ → List ℕ} {home : ℕ → Home}
    → IsWellFormed k waiting home
    → d < num_devices
    → home t ≡ waits (device_queue d)
    → (k.devices d).next_match ≤ k.system_time
    → k.system_time + n < 2 ^ 32
    → (k' : Kernel) × (waiting' : ℕ → List ℕ) × (home' : ℕ → Home) × (ticks n k ≡ some k')
      × IsWellFormed k' waiting' home'
      × (home' t ≡ waits (device_queue d))
unfolding ticks
ticks_never_wake zero d t {k} {waiting} {home} wf in_range asleep past h =
    (k, waiting, home, refl, wf, asleep)
ticks_never_wake (suc n) d t {k} {waiting} {home} wf in_range asleep past h =
    let (k', tick) = c_irq_handler-Ticked wf (omega arith) in
    let still : woken_homes k (k.system_time + 1) home t ≡ waits (device_queue d) = ground arith in
    let next : (k'.devices d).next_match ≤ k'.system_time =
      ground (arith, tick.time, tick.next_times d in_range) in
    let (k₂, waiting₂, home₂, e, wf₂, asleep₂) =
      ticks_never_wake n d t tick.wf in_range still next (omega (arith, tick.time)) in
    (k₂, waiting₂, home₂, rw (tick.result, ticks) e, wf₂, asleep₂)
