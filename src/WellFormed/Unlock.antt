-- ===== src/WellFormed/Unlock.antt =====
-- `mutex_unlock_syscall` on each of its branches, from a well-formed state.
use embd_lab.Prelude.{
  ℕ, ◌<◌, ◌≤◌, ◌≡◌, ◌≢◌, ◌⊎◌, refl, pos, true, false, Option, none, some, List, [], ◌∷◌, arith,
  update,
}
use embd_lab.Kernel.{Kernel, os_num_mutex}
use embd_lab.Dispatch.{enable_interrupts, disable_interrupts}
use embd_lab.Syscall.{returned, einval, eperm}
use embd_lab.Mutex.{release, mutex_unlock_syscall}
use embd_lab.Waiting.{Home, ready}
use embd_lab.Waiting.Frame.{Placed-frame}
use embd_lab.Waiting.Wake.{Placed-head, Placed-wake}
use embd_lab.WellFormed.{head_of, IsWellFormed}
use embd_lab.WellFormed.Lock.{IsCreated, Holders}

module _ {k : Kernel} {waiting : ℕ → List ℕ} {home : ℕ → Home} (wf : IsWellFormed k waiting home)
    (m : ℕ) where
  open wf use {sound, running}
  open sound use {placed, owned, idle_ready}
  open owned use {locked, unwaited, created, holder_awake}

  at_head : m < os_num_mutex → head_of k m ≡ (k.gt_mutex m).p_sleep_queue
  at_head small = ground arith

  module _ (c : IsCreated k m) (held : (k.gt_mutex m).p_holding_tcb ≡ some k.cur_tcb) where
    unlock-release :
        (head : Option ℕ)
        → head_of k m ≡ head
        → mutex_unlock_syscall (pos m) k ≡ returned (enable_interrupts (release m head k)) (pos 0)
    unfolding mutex_unlock_syscall enable_interrupts disable_interrupts release
    unlock-release none e = ground (arith, c.small, c.taken)
    unlock-release (some t) e = ground (arith, c.small, c.taken)

    -- From a well-formed state, if the holder unlocks a created mutex for which no task waits, the call
    -- returns 0, the mutex is free, no other mutex changes its holder, no task changes its place, and
    -- the state is well-formed.
    pub mutex_unlock-frees :
        waiting m ≡ []
        → (k' : Kernel) × (mutex_unlock_syscall (pos m) k ≡ returned k' (pos 0))
          × ((k'.gt_mutex m).b_lock ≡ false)
          × Holders k m none k'
          × IsWellFormed k' waiting home
    unfolding release enable_interrupts
    mutex_unlock-frees alone = (
      enable_interrupts (release m none k),
      unlock-release none (rw alone at (placed.chains m (omega (arith, c.small)))),
      ground arith,
      λ i. ground arith,
      record {
        sound = record {
          placed =
              Placed-frame placed (λ a. refl) (λ a. refl) (λ w h. ground arith) (λ w h. refl)
                λ t h. refl;
          owned = record {
            locked = λ i h. ground (arith, locked i);
            unwaited = λ i h e. ground (arith, unwaited i, alone);
            created = λ i h e. ground (arith, created i);
            holder_awake = λ i t h l e. ground (arith, holder_awake i t);
          };
          idle_ready = idle_ready;
        };
        running = record { small = running.small; is_ready = running.is_ready };
      },
    )

    -- From a well-formed state, if the holder unlocks a created mutex for which tasks wait, the call
    -- returns 0, the first of them becomes ready and holds the mutex, which stays locked, the others
    -- keep their order, and the state is well-formed.
    pub mutex_unlock-hands_over :
        (t : ℕ) (rest : List ℕ)
        → waiting m ≡ t ∷ rest
        → (k' : Kernel) × (mutex_unlock_syscall (pos m) k ≡ returned k' (pos 0))
          × ((k'.gt_mutex m).b_lock ≡ true)
          × Holders k m (some t) k'
          × IsWellFormed k' (update waiting m rest) (update home t ready)
    unfolding release enable_interrupts
    mutex_unlock-hands_over t rest first = (
      enable_interrupts (release m (some t) k),
      unlock-release (some t) (Placed-head placed m below t rest first),
      ground (arith, locked m, c.small),
      λ i. ground arith,
      record {
        sound = record {
          placed =
              Placed-frame (Placed-wake placed m below t rest first) (λ a. refl) (λ a. refl)
                (λ w h. ground (arith, c.small)) (λ w h. refl) λ t h. refl;
          owned = record {
            locked = λ i h. ground (arith, locked i);
            unwaited = λ i h e. ground (arith, unwaited i, locked i);
            created = λ i h e. ground (arith, created i, locked i, c.taken);
            holder_awake = λ i s h l e. ground (arith, holder_awake i s);
          };
          idle_ready = ground arith;
        };
        running = record { small = running.small; is_ready = ground (arith, running.is_ready) };
      },
    )
      where
        below : m < 95
        below = omega (arith, c.small)

  -- A mutex that is out of range or has not been created gives EINVAL, and no mutex or task changes.
  pub mutex_unlock_einval :
      (os_num_mutex ≤ m) ⊎ ((k.gt_mutex m).b_available ≡ true)
      → mutex_unlock_syscall (pos m) k ≡ returned (enable_interrupts k) einval
  unfolding mutex_unlock_syscall enable_interrupts disable_interrupts
  mutex_unlock_einval e = ground arith

  -- A mutex that the task does not hold gives EPERM, and no mutex or task changes.
  pub mutex_unlock_eperm :
      IsCreated k m
      → (k.gt_mutex m).p_holding_tcb ≢ some k.cur_tcb
      → mutex_unlock_syscall (pos m) k ≡ returned (enable_interrupts k) eperm
  unfolding mutex_unlock_syscall enable_interrupts disable_interrupts
  mutex_unlock_eperm c e = ground (arith, c.small, c.taken)
