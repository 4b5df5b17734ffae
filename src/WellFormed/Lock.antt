-- ===== src/WellFormed/Lock.antt =====
-- `mutex_lock_syscall` on each of its branches, from a well-formed state.
use embd_lab.Prelude.{
  ℕ, ◌<◌, ◌≡◌, ◌≢◌, ◌≤◌, ◌⊎◌, refl, pos, true, false, Option, some, List, [], ◌∷◌, ◌++◌, arith,
  ◌==◌, if◌then◌else◌, update,
}
use embd_lab.Kernel.{Kernel, os_num_mutex, idle_prio}
use embd_lab.RunQueue.{runqueue_remove}
use embd_lab.Dispatch.{dispatch_save, disable_interrupts, enable_interrupts}
use embd_lab.Syscall.{returned, switched, einval, edeadlock}
use embd_lab.SleepQueue.Append.{Appended, append_current-Appended}
use embd_lab.Mutex.{is_holder, take_mutex, block_on, mutex_lock_syscall, mutex_lock_resume}
use embd_lab.Waiting.{Home, waits}
use embd_lab.Waiting.Frame.{Placed-frame}
use embd_lab.Waiting.Sleep.{Placed-IsAppendable, Placed-sleep}
use embd_lab.WellFormed.{head_of, IsSound, IsWellFormed}
use embd_lab.WellFormed.Switch.{IsFirst, dispatch_save-IsWellFormed}

-- The mutex exists and has been created.
pub record IsCreated (k : Kernel) (m : ℕ) : Type 0 where
  pub small : m < os_num_mutex
  pub taken : (k.gt_mutex m).b_available ≡ false

-- In `k'` mutex `m` is held by `h`; every other mutex has its holder of `k`, and the same are created.
abbrev pub Holders : Kernel → ℕ → Option ℕ → Kernel → Type 0
Holders k m h k' =
    (i : ℕ)
    → ((k'.gt_mutex i).p_holding_tcb ≡ (if m == i then h else (k.gt_mutex i).p_holding_tcb))
      × ((k'.gt_mutex i).b_available ≡ (k.gt_mutex i).b_available)

module _ {k : Kernel} {waiting : ℕ → List ℕ} {home : ℕ → Home} (wf : IsWellFormed k waiting home)
    (m : ℕ) where
  open wf use {sound, running}
  open sound use {placed, owned, idle_ready}
  open owned use {locked, unwaited, created, holder_awake}

  -- The state in which the running task has taken the free mutex `m`.
  pub take_mutex-IsWellFormed :
      IsCreated k m → IsWellFormed (enable_interrupts (take_mutex m k)) waiting home
  unfolding take_mutex enable_interrupts
  take_mutex-IsWellFormed c = record {
    sound = record {
      placed =
          Placed-frame placed (λ a. refl) (λ a. refl) (λ w h. ground arith) (λ w h. refl)
            λ t h. refl;
      owned = record {
        locked = λ i h. ground (arith, locked i);
        unwaited = λ i h e. ground (arith, unwaited i);
        created = λ i h e. ground (arith, created i, c.taken);
        holder_awake = λ i t h l e. ground (arith, holder_awake i t, running.is_ready);
      };
      idle_ready = idle_ready;
    };
    running = record { small = running.small; is_ready = running.is_ready };
  }

  -- A task that locks a mutex held by another goes to the end of its queue.
  module _ (c : IsCreated k m) (busy : (k.gt_mutex m).b_lock ≡ true)
      (other : is_holder (k.gt_mutex m).p_holding_tcb k.cur_tcb ≡ false)
      (not_idle : k.cur_tcb ≢ idle_prio) where
    k₁ : Kernel
    k₁ = disable_interrupts k

    appended : Appended (disable_interrupts k) (head_of (disable_interrupts k) m) (waiting m)
    unfolding disable_interrupts
    appended = append_current-Appended (disable_interrupts k) (head_of k m) (waiting m) (
        Placed-IsAppendable {k = disable_interrupts k} placed running.small running.is_ready m
          (omega (arith, c.small)))

    -- The state before the switch.
    blocked : Kernel
    unfolding disable_interrupts
    blocked = record k {
      queue = (runqueue_remove k.queue k.cur_tcb).0;
      system_tcb = appended.tcbs;
      gt_mutex = update k.gt_mutex m (record (k.gt_mutex m) { p_sleep_queue = appended.new_head });
      irq_enabled = true;
    }

    blocked-IsSound :
        IsSound blocked
          (update waiting m (waiting m ++ k.cur_tcb ∷ []))
          (update home k.cur_tcb (waits m))
    unfolding blocked disable_interrupts
    blocked-IsSound = record {
      placed =
          Placed-frame
            (Placed-sleep {k = disable_interrupts k} placed running.small running.is_ready m
              (omega (arith, c.small)) appended)
            (λ a. refl) (λ a. refl) (λ w h. ground (arith, c.small)) (λ w h. refl) λ t h. refl;
      owned = record {
        locked = λ i h. ground (arith, locked i);
        unwaited = λ i h e. ground (arith, unwaited i);
        created = λ i h e. ground (arith, created i);
        holder_awake = λ i t h l e. ground (arith, holder_awake i t);
      };
      idle_ready = ground arith;
    }

    at_head : head_of k m ≡ (k.gt_mutex m).p_sleep_queue
    at_head = ground (arith, c.small)

    block-eq : block_on m (disable_interrupts k) ≡ switched (dispatch_save blocked)
    unfolding block_on blocked
    block-eq = rw (rw at_head at appended.result, block_on)

    lock-eq : mutex_lock_syscall (pos m) k ≡ switched (dispatch_save blocked)
    unfolding mutex_lock_syscall
    lock-eq = ground (arith, block-eq, c.small, c.taken)

    -- From a well-formed state, a task other than the idle task that locks a created mutex held by
    -- another goes to the end of the mutex's queue and out of the run queue, the ready task of the
    -- lowest number runs, the mutex keeps its holder, and the state is well-formed.
    pub mutex_lock-waits :
        (k' : Kernel) × (mutex_lock_syscall (pos m) k ≡ switched k')
        × IsWellFormed k'
            (update waiting m (waiting m ++ k.cur_tcb ∷ []))
            (update home k.cur_tcb (waits m))
        × IsFirst (update home k.cur_tcb (waits m)) k'.cur_tcb
        × Holders k m (k.gt_mutex m).p_holding_tcb k'
    unfolding dispatch_save blocked
    mutex_lock-waits =
        let (wf', first) = dispatch_save-IsWellFormed blocked-IsSound in
        (dispatch_save blocked, lock-eq, wf', first, λ i. ground arith)

  -- From a well-formed state, locking a created mutex that is free returns 0 and makes the running task
  -- its holder; no other mutex changes its holder, no task changes its place, and the state is
  -- well-formed.
  pub mutex_lock-takes :
      IsCreated k m
      → (k.gt_mutex m).b_lock ≡ false
      → (k' : Kernel) × (mutex_lock_syscall (pos m) k ≡ returned k' (pos 0))
        × Holders k m (some k.cur_tcb) k'
        × IsWellFormed k' waiting home
  unfolding mutex_lock_syscall enable_interrupts disable_interrupts take_mutex
  mutex_lock-takes c free = (
    enable_interrupts (take_mutex m k),
    ground (arith, c.small, c.taken, locked m),
    λ i. ground arith,
    take_mutex-IsWellFormed c,
  )

  -- A mutex that is out of range or has not been created gives EINVAL, and no mutex or task changes.
  pub mutex_lock_einval :
      (os_num_mutex ≤ m) ⊎ ((k.gt_mutex m).b_available ≡ true)
      → mutex_lock_syscall (pos m) k ≡ returned (enable_interrupts k) einval
  unfolding mutex_lock_syscall enable_interrupts disable_interrupts
  mutex_lock_einval e = ground arith

  -- A mutex that the task holds already gives EDEADLOCK, and no mutex or task changes.
  pub mutex_lock_edeadlock :
      IsCreated k m
      → (k.gt_mutex m).p_holding_tcb ≡ some k.cur_tcb
      → mutex_lock_syscall (pos m) k ≡ returned (enable_interrupts k) edeadlock
  unfolding mutex_lock_syscall enable_interrupts disable_interrupts
  mutex_lock_edeadlock c e = ground (arith, c.small, c.taken)

  -- When a task that waited runs again and already holds the mutex, the rest of the handler returns 0
  -- and changes no mutex.
  pub mutex_lock_resume_lem :
      IsCreated k m
      → (k.gt_mutex m).p_holding_tcb ≡ some k.cur_tcb
      → (k' : Kernel) × (mutex_lock_resume m k ≡ returned k' (pos 0))
        × ((i : ℕ) → k'.gt_mutex i ≡ k.gt_mutex i)
        × IsWellFormed k' waiting home
  unfolding mutex_lock_resume take_mutex enable_interrupts disable_interrupts
  mutex_lock_resume_lem c held = (
    enable_interrupts (take_mutex m k),
    refl,
    λ i. ground (arith, locked m, c.small),
    take_mutex-IsWellFormed c,
  )
