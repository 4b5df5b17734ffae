-- ===== src/WellFormed.antt =====
-- The invariant of the whole kernel state, between system calls and interrupts.
pub mod Switch
pub mod Lock
pub mod Unlock
pub mod Sleep
pub mod Wake
pub mod Signal
pub mod Create
use embd_lab.Prelude.{
  ℕ, ◌-◌, ◌<◌, ◌≡◌, ◌≢◌, true, false, Option, some, List, [], ltb, if◌then◌else◌, is_some,
}
use embd_lab.Kernel.{Mutex, Kernel, os_num_mutex, os_max_tasks, idle_prio}
use embd_lab.Waiting.{Home, ready, waits, Placed}

-- Queue `w` belongs to mutex `w` if `w < 32`, and to device `w - 32` otherwise.
abbrev pub head_of : Kernel → ℕ → Option ℕ
head_of k w =
    if ltb w os_num_mutex
    then (k.gt_mutex w).p_sleep_queue
    else (k.devices (w - os_num_mutex)).sleep_queue

-- A mutex is locked exactly when it has a holder, tasks wait only for a locked one, one that has not
-- been created is free, and the holder does not wait for it.
pub record Owned (gt_mutex : ℕ → Mutex) (waiting : ℕ → List ℕ) (home : ℕ → Home) : Type 0 where
  pub locked : (m : ℕ) → m < os_num_mutex → (gt_mutex m).b_lock ≡ is_some (gt_mutex m).p_holding_tcb
  pub unwaited : (m : ℕ) → m < os_num_mutex → (gt_mutex m).b_lock ≡ false → waiting m ≡ []
  pub created :
      (m : ℕ) → m < os_num_mutex → (gt_mutex m).b_available ≡ true → (gt_mutex m).b_lock ≡ false
  pub holder_awake :
      (m t : ℕ)
      → m < os_num_mutex
      → t < os_max_tasks
      → (gt_mutex m).p_holding_tcb ≡ some t
      → home t ≢ waits m

-- Everything but the running task.
pub record IsSound (k : Kernel) (waiting : ℕ → List ℕ) (home : ℕ → Home) : Type 0 where
  pub placed : Placed k.queue k.system_tcb (head_of k) waiting home
  pub owned : Owned k.gt_mutex waiting home
  pub idle_ready : home idle_prio ≡ ready

-- The running task is one of those that are ready.
pub record IsRunning (k : Kernel) (home : ℕ → Home) : Type 0 where
  pub small : k.cur_tcb < os_max_tasks
  pub is_ready : home k.cur_tcb ≡ ready

pub record IsWellFormed (k : Kernel) (waiting : ℕ → List ℕ) (home : ℕ → Home) : Type 0 where
  pub sound : IsSound k waiting home
  pub running : IsRunning k home
