-- ===== src/System/Invariant/Calls.antt =====
-- Locking and unlocking keep the invariant.
use embd_lab.Prelude.{
  ℕ, ℤ, pos, ◌<◌, ◌≤◌, ◌≡◌, ◌≢◌, ◌⊎◌, inl, inr, refl, Bool, true, false, Option, none, some, List,
  [], ◌∷◌, arith, ltb, Bool-cases, update,
}
use embd_lab.Kernel.{Kernel, os_num_mutex}
use embd_lab.Dispatch.{enable_interrupts}
use embd_lab.Mutex.{is_holder, mutex_lock_syscall, mutex_lock_resume, mutex_unlock_syscall}
use embd_lab.Waiting.{waits}
use embd_lab.WellFormed.{IsWellFormed}
use embd_lab.WellFormed.Lock.{
  IsCreated, Holders, mutex_lock-waits, mutex_lock-takes, mutex_lock_einval, mutex_lock_edeadlock,
  mutex_lock_resume_lem,
}
use embd_lab.WellFormed.Unlock.{
  mutex_unlock-frees, mutex_unlock-hands_over, mutex_unlock_einval, mutex_unlock_eperm,
}
use embd_lab.System.{Pending, user, in_lock, System, IsCaller, claim}
use embd_lab.System.Invariant.Defs.{Inv, Ends}

created :
    (k : Kernel) (m : ℕ)
    → ((os_num_mutex ≤ m) ⊎ ((k.gt_mutex m).b_available ≡ true)) ⊎ IsCreated k m
created k m = elim (Bool-cases (ltb m os_num_mutex)) [
  | inl small ↦ elim (Bool-cases (k.gt_mutex m).b_available) [
    | inl free ↦ inl (inr free)
    | inr taken ↦ inr (record { small = ground arith; taken = taken })
  ]
  | inr big ↦ inl (inl (ground arith))
]

holder-eq : (holder : Option ℕ) (t : ℕ) → is_holder holder t ≡ true → holder ≡ some t
holder-eq none t e = absurd (cc)
holder-eq (some h) t e = ground arith

holder-ne : (holder : Option ℕ) (t : ℕ) → is_holder holder t ≡ false → holder ≢ some t
holder-ne none t e p = cc
holder-ne (some h) t e p = ground arith

module _ {n : ℕ} {s : System} (inv : Inv n s) (m : ℕ) where
  open inv use {waiting, home, wf, alive, claimed, locking, known, asleep}
  open wf use {running, sound}

  -- The running task waits for no mutex.
  awake : (i : ℕ) → home s.kernel.cur_tcb ≢ waits i
  awake i e = ground (arith, running.is_ready)

  abbrev LockReturned : Kernel → ℤ → Type 0
  LockReturned k r =
      Inv n (record s { kernel = k; claims = claim s.claims s.kernel.cur_tcb m r true })

  abbrev LockSwitched : Kernel → Type 0
  LockSwitched k =
      Inv n (record s { kernel = k; pending = update s.pending s.kernel.cur_tcb (in_lock m) })

  abbrev UnlockReturned : Kernel → ℤ → Type 0
  UnlockReturned k r =
      Inv n (record s { kernel = k; claims = claim s.claims s.kernel.cur_tcb m r false })

  -- A call that returns an error code leaves no trace.
  fails :
      (r : ℕ) (b : Bool)
      → 0 < r
      → Inv n (record s {
        kernel = enable_interrupts s.kernel;
        claims = claim s.claims s.kernel.cur_tcb m (pos r) b;
      })
  unfolding enable_interrupts
  fails r b nonzero = record {
    waiting = waiting;
    home = home;
    wf = record {
      sound = record { placed = sound.placed; owned = sound.owned; idle_ready = sound.idle_ready };
      running = record { small = running.small; is_ready = running.is_ready };
    };
    alive = λ t h e. ground (arith, alive t);
    claimed = λ t i h. ground (arith, claimed t i);
    locking = λ t i l h. ground (arith, locking t i);
    known = λ t i l h. ground (arith, known t i);
    asleep = asleep;
  }

  -- The running task takes a mutex that it holds already, or that nobody holds.
  takes :
      {k : Kernel}
      → IsCreated s.kernel m
      → ((t : ℕ) → (s.kernel.gt_mutex m).p_holding_tcb ≡ some t → t ≡ s.kernel.cur_tcb)
      → Holders s.kernel m (some s.kernel.cur_tcb) k
      → IsWellFormed k waiting home
      → (pending : ℕ → Pending)
      → ((t i : ℕ)
          → pending t ≡ in_lock i
          → (s.pending t ≡ in_lock i) × ((t ≡ s.kernel.cur_tcb) → i ≢ m))
      → ((t i : ℕ)
          → s.pending t ≡ in_lock i
          → (pending t ≡ in_lock i) ⊎ ((t ≡ s.kernel.cur_tcb) × (i ≡ m)))
      → Inv n (record {
        kernel = k;
        pending = pending;
        claims = claim s.claims s.kernel.cur_tcb m (pos 0) true;
      })
  takes c mine holders wf' pending old kept = record {
    waiting = waiting;
    home = home;
    wf = wf';
    alive = λ t h e. ground (arith, alive t);
    claimed = λ t i h. ground (arith, claimed t i, mine t, holders i, c.small, c.taken);
    locking = λ t i l h. ground (arith, locking t i, mine t, holders i, old t i, c.small, c.taken);
    known = λ t i l h. ground (arith, known t i, holders i, kept t i);
    asleep = λ t i l h e. ground (arith, asleep t i, kept t i, awake i);
  }

  module _ (caller : IsCaller s) where
    lock-waits :
        IsCreated s.kernel m
        → (s.kernel.gt_mutex m).b_lock ≡ true
        → is_holder (s.kernel.gt_mutex m).p_holding_tcb s.kernel.cur_tcb ≡ false
        → Ends LockReturned LockSwitched (mutex_lock_syscall (pos m) s.kernel)
    lock-waits c busy other =
        let (k', e, wf', first, holders) = mutex_lock-waits wf m c busy other caller.not_idle in
        rw e record {
          waiting = _;
          home = _;
          wf = wf';
          alive = λ t h e. ground (arith, alive t);
          claimed = λ t i h. ground (arith, claimed t i, holders i);
          locking =
              λ t i l h. ground (arith, locking t i, holders i, c.small, c.taken, caller.in_user);
          known = λ t i l h. ground (arith, known t i, holders i, caller.in_user);
          asleep = λ t i l h e. ground (arith, asleep t i);
        }

    lock-takes :
        IsCreated s.kernel m
        → (s.kernel.gt_mutex m).b_lock ≡ false
        → Ends LockReturned LockSwitched (mutex_lock_syscall (pos m) s.kernel)
    lock-takes c free =
        let (k', e, holders, wf') = mutex_lock-takes wf m c free in
        rw e (
          takes c (λ t h. absurd (ground (arith, sound.owned.locked m, c.small))) holders wf'
            s.pending (λ t i h. (h, λ at. ground (arith, caller.in_user))) λ t i h. inl h)

    -- A call to lock a mutex never faults, and keeps the invariant.
    pub lock-Inv : Ends LockReturned LockSwitched (mutex_lock_syscall (pos m) s.kernel)
    lock-Inv = elim (created s.kernel m) [
      | inl bad ↦ rw (mutex_lock_einval wf m bad) (fails 22 true (omega arith))
      | inr c ↦ elim (Bool-cases (is_holder (s.kernel.gt_mutex m).p_holding_tcb s.kernel.cur_tcb)) [
        | inl held ↦
            rw (mutex_lock_edeadlock wf m c (holder-eq _ _ held)) (fails 58 true (omega arith))
        | inr other ↦ elim (Bool-cases (s.kernel.gt_mutex m).b_lock) [
          | inl busy ↦ lock-waits c busy other
          | inr free ↦ lock-takes c free
        ]
      ]
    ]

    unlock-frees :
        IsCreated s.kernel m
        → (s.kernel.gt_mutex m).p_holding_tcb ≡ some s.kernel.cur_tcb
        → (queue : List ℕ) → waiting m ≡ queue
        → Ends UnlockReturned (λ _. ⊥) (mutex_unlock_syscall (pos m) s.kernel)
    unlock-frees c held [] none_waits =
        let (k', e, unlocked, holders, wf') = mutex_unlock-frees wf m c held none_waits in
        rw e record {
          waiting = _;
          home = _;
          wf = wf';
          alive = λ t h e. ground (arith, alive t);
          claimed = λ t i h. ground (arith, claimed t i, holders i);
          locking = λ t i l h. ground (arith, locking t i, holders i, caller.in_user);
          known = λ t i l h. ground (arith, known t i, holders i);
          asleep = asleep;
        }
    unlock-frees c held (next ∷ rest) first =
        let (k', e, still, holders, wf') = mutex_unlock-hands_over wf m c held next rest first in
        let slept : (next < 64) × (home next ≡ waits m) =
          sound.placed.members m next (omega (arith, c.small)) (rw first (ground arith)) in
        rw e record {
          waiting = _;
          home = _;
          wf = wf';
          alive = λ t h e. ground (arith, alive t);
          claimed = λ t i h. ground (arith, claimed t i, holders i);
          locking = λ t i l h. ground (arith, locking t i, holders i, slept, caller.in_user);
          known = λ t i l h. ground (arith, known t i, holders i, asleep t i, slept, c.small);
          asleep = λ t i l h e. ground (arith, asleep t i);
        }

    -- A call to unlock a mutex never faults or switches, and keeps the invariant.
    pub unlock-Inv : Ends UnlockReturned (λ _. ⊥) (mutex_unlock_syscall (pos m) s.kernel)
    unlock-Inv = elim (created s.kernel m) [
      | inl bad ↦ rw (mutex_unlock_einval wf m bad) (fails 22 false (omega arith))
      | inr c ↦ elim (Bool-cases (is_holder (s.kernel.gt_mutex m).p_holding_tcb s.kernel.cur_tcb)) [
        | inl held ↦ unlock-frees c (holder-eq _ _ held) (waiting m) refl
        | inr other ↦
            rw (mutex_unlock_eperm wf m c (holder-ne _ _ other)) (fails 1 false (omega arith))
      ]
    ]

  abbrev Resumed : Kernel → ℤ → Type 0
  Resumed k r = Inv n (record {
    kernel = k;
    pending = update s.pending s.kernel.cur_tcb user;
    claims = claim s.claims s.kernel.cur_tcb m r true;
  })

  -- A task that is switched to inside `mutex_lock_syscall` has been handed the mutex.
  pub locking-holds :
      s.pending s.kernel.cur_tcb ≡ in_lock m
      → IsCreated s.kernel m × ((s.kernel.gt_mutex m).p_holding_tcb ≡ some s.kernel.cur_tcb)
  locking-holds inside = ground (arith, locking s.kernel.cur_tcb m running.small, awake m)

  pub lock_resume-Inv :
      s.pending s.kernel.cur_tcb ≡ in_lock m → Ends Resumed (λ _. ⊥) (mutex_lock_resume m s.kernel)
  lock_resume-Inv inside =
      let (c, held) = locking-holds inside in
      let (k', e, same, wf') = mutex_lock_resume_lem wf m c held in
      rw e (
        takes c (λ t h. ground arith) (λ i. ground (arith, same i)) wf'
          (update s.pending s.kernel.cur_tcb user)
          (λ t i h. (ground arith, λ at. absurd (ground arith))) λ t i h. ground arith)
