-- ===== src/Tests/Devices.antt =====
-- The devices and the timer.
use embd_lab.Prelude.{ℕ, ◌≤◌, ◌≡◌, refl, some, List, [], ◌∷◌, ◌++◌, arith, update}
use embd_lab.Kernel.{Kernel}
use embd_lab.Device.{dev_wait, dev_update}
use embd_lab.Irq.{ticks}
use embd_lab.Irq.Period.{
  IsOnTime, dev_freq_bounds, IsWellFormed-time, ticks_wake_within_period, ticks_never_wake,
}
use embd_lab.Waiting.{Home, ready, waits}
use embd_lab.WellFormed.{IsWellFormed}
use embd_lab.WellFormed.Sleep.{device_queue, dev_wait-sleeps}
use embd_lab.WellFormed.Signal.{Updated, dev_update_lem}
use embd_lab.WellFormed.Switch.{IsFirst}
use embd_lab.Tests.States.{
  idle_mutex, free_mutex, asleep, place_zero, queue_zero, awake-IsWellFormed, asleep-IsWellFormed,
}

dev_wait-sleeps_example :
    (k' : Kernel) × (dev_wait 3 idle_mutex ≡ some k')
    × IsWellFormed k'
        (update (λ _. []) (device_queue 3) ([] ++ 0 ∷ []))
        (update (place_zero ready) 0 (waits (device_queue 3)))
    × IsFirst (update (place_zero ready) 0 (waits (device_queue 3))) k'.cur_tcb
    × (k'.gt_mutex ≡ idle_mutex.gt_mutex)
dev_wait-sleeps_example =
    dev_wait-sleeps (awake-IsWellFormed free_mutex refl refl refl) 3 (omega arith) (omega arith)

dev_update_lem_example :
    (k' : Kernel) × (dev_update 50 (asleep 3) ≡ some k')
    × Updated 50 (asleep 3) k' (queue_zero 35) (place_zero (waits 35))
dev_update_lem_example = dev_update_lem 50 (asleep-IsWellFormed 3 (omega arith))

asleep-IsOnTime : IsOnTime (asleep 3)
asleep-IsOnTime = record {
  after = λ d l. omega arith;
  within = λ d l. omega (arith, dev_freq_bounds d);
}

ticks_wake_within_period_example :
    (n : ℕ) × (n ≤ 50)
    × ((k' : Kernel) × (waiting' : ℕ → List ℕ) × (home' : ℕ → Home) × (ticks n (asleep 3) ≡ some k')
        × IsWellFormed k' waiting' home'
        × (home' 0 ≡ ready))
ticks_wake_within_period_example =
    ticks_wake_within_period 3 0 (asleep-IsWellFormed 3 (omega arith)) asleep-IsOnTime (omega arith)
      (omega arith) refl

-- Device 10 has no period, and its time has passed.
abbrev late : Kernel
late = record (asleep 10) { system_time = 60 }

ticks_never_wake_example :
    (k' : Kernel) × (waiting' : ℕ → List ℕ) × (home' : ℕ → Home) × (ticks 1000 late ≡ some k')
    × IsWellFormed k' waiting' home'
    × (home' 0 ≡ waits (device_queue 10))
ticks_never_wake_example =
    ticks_never_wake 1000 10 0 {k = late}
      (IsWellFormed-time 60 (asleep-IsWellFormed 10 (omega arith))) (omega arith) refl (omega arith)
      (omega arith)
