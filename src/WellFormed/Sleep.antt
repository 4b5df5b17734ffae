-- ===== src/WellFormed/Sleep.antt =====
-- `dev_wait` and `dev_update` from a well-formed state.
use embd_lab.Prelude.{ℕ, ◌+◌, ◌<◌, ◌≡◌, ◌≢◌, refl, some, List, [], ◌∷◌, ◌++◌, arith, update}
use embd_lab.Kernel.{Kernel, num_devices, os_num_mutex, idle_prio}
use embd_lab.RunQueue.{runqueue_remove}
use embd_lab.Dispatch.{dispatch_save, dispatch_sleep}
use embd_lab.SleepQueue.Append.{Appended, append_current-Appended}
use embd_lab.Device.{dev_wait}
use embd_lab.Waiting.{Home, waits}
use embd_lab.Waiting.Frame.{Placed-frame}
use embd_lab.Waiting.Sleep.{Placed-IsAppendable, Placed-sleep}
use embd_lab.WellFormed.{head_of, IsSound, IsWellFormed}
use embd_lab.WellFormed.Switch.{IsFirst, dispatch_save-IsWellFormed, dispatch_sleep-eq}

-- The sleep queue of device `d`.
abbrev pub device_queue : ℕ → ℕ
device_queue d = os_num_mutex + d

module _ {k : Kernel} {waiting : ℕ → List ℕ} {home : ℕ → Home} (wf : IsWellFormed k waiting home)
    (d : ℕ) (in_range : d < num_devices) (not_idle : k.cur_tcb ≢ idle_prio) where
  open wf use {sound, running}
  open sound use {placed, owned, idle_ready}
  open owned use {locked, unwaited, created, holder_awake}

  appended : Appended k (head_of k (device_queue d)) (waiting (device_queue d))
  appended =
      append_current-Appended k (head_of k (device_queue d)) (waiting (device_queue d))
        (Placed-IsAppendable placed running.small running.is_ready (device_queue d) (omega arith))

  -- The state before the switch.
  asleep : Kernel
  asleep = record k {
    queue = (runqueue_remove k.queue k.cur_tcb).0;
    system_tcb = appended.tcbs;
    devices = update k.devices d (record (k.devices d) { sleep_queue = appended.new_head });
  }

  asleep-IsSound :
      IsSound asleep
        (update waiting (device_queue d) (waiting (device_queue d) ++ k.cur_tcb ∷ []))
        (update home k.cur_tcb (waits (device_queue d)))
  unfolding asleep
  asleep-IsSound = record {
    placed =
        Placed-frame
          (Placed-sleep placed running.small running.is_ready (device_queue d) (omega arith)
            appended)
          (λ a. refl) (λ a. refl) (λ w h. ground arith) (λ w h. refl) λ t h. refl;
    owned = record {
      locked = λ i h. locked i h;
      unwaited = λ i h e. ground (arith, unwaited i);
      created = λ i h e. created i h e;
      holder_awake = λ i t h l e. ground (arith, holder_awake i t);
    };
    idle_ready = ground arith;
  }

  at_head : head_of k (device_queue d) ≡ (k.devices d).sleep_queue
  at_head = ground arith

  wait-eq : dev_wait d k ≡ some (dispatch_sleep asleep)
  unfolding dev_wait asleep
  wait-eq = rw (rw at_head at appended.result, dev_wait)

  -- From a well-formed state, a task other than the idle task that waits for an existing device goes to
  -- the end of the device's queue, the ready task of the lowest number runs, no mutex changes, and the
  -- state is well-formed.
  pub dev_wait-sleeps :
      (k' : Kernel) × (dev_wait d k ≡ some k')
      × IsWellFormed k'
          (update waiting (device_queue d) (waiting (device_queue d) ++ k.cur_tcb ∷ []))
          (update home k.cur_tcb (waits (device_queue d)))
      × IsFirst (update home k.cur_tcb (waits (device_queue d))) k'.cur_tcb
      × (k'.gt_mutex ≡ k.gt_mutex)
  unfolding dispatch_save asleep
  dev_wait-sleeps =
      let (wf', first) = dispatch_save-IsWellFormed asleep-IsSound in
      (dispatch_save asleep, rw (← dispatch_sleep-eq asleep-IsSound) wait-eq, wf', first, refl)
