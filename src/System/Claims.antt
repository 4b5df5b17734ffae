-- ===== src/System/Claims.antt =====
-- The claims decide what the mutex calls of a task return.
use embd_lab.Prelude.{
  ℕ, pos, ◌≤◌, ◌≡◌, ◌≢◌, ◌⊎◌, inl, inr, Bool, true, false, Option, none, some, List, [], ◌∷◌, arith,
  Bool-cases, ◌==◌, refl,
}
use embd_lab.Kernel.{Task, Kernel, os_max_tasks}
use embd_lab.Sched.{Addresses}
use embd_lab.Sched.Start.{IsQuiet}
use embd_lab.Syscall.{returned, switched, edeadlock, eperm}
use embd_lab.Mutex.{is_holder, mutex_lock_syscall, mutex_unlock_syscall}
use embd_lab.WellFormed.Lock.{IsCreated, mutex_lock-waits, mutex_lock-takes, mutex_lock_edeadlock}
use embd_lab.WellFormed.Unlock.{mutex_unlock-frees, mutex_unlock-hands_over, mutex_unlock_eperm}
use embd_lab.System.{System, in_lock, IsCaller, Reach}
use embd_lab.System.Invariant.Defs.{Inv}
use embd_lab.System.Safety.{boot, reached}

-- What a call to lock mutex `m` does, by the holder of the mutex and the claims. A holder without a
-- claim has been handed the mutex, and is still inside its call to lock it.
pub data LockOutcome (s : System) (m : ℕ) : Type 0 where
  deadlocks :
      (k : Kernel)
      → (s.kernel.gt_mutex m).p_holding_tcb ≡ some s.kernel.cur_tcb
      → s.claims s.kernel.cur_tcb m ≡ true
      → mutex_lock_syscall (pos m) s.kernel ≡ returned k edeadlock
      → LockOutcome s m
  succeeds :
      (k : Kernel)
      → (s.kernel.gt_mutex m).p_holding_tcb ≡ none
      → ((t : ℕ) → s.claims t m ≡ false)
      → mutex_lock_syscall (pos m) s.kernel ≡ returned k (pos 0)
      → LockOutcome s m
  waits :
      (k : Kernel) (holder : ℕ)
      → (s.kernel.gt_mutex m).p_holding_tcb ≡ some holder
      → holder ≢ s.kernel.cur_tcb
      → s.claims s.kernel.cur_tcb m ≡ false
      → (s.claims holder m ≡ true) ⊎ (s.pending holder ≡ in_lock m)
      → mutex_lock_syscall (pos m) s.kernel ≡ switched k
      → LockOutcome s m

-- What a call to unlock mutex `m` does, by the claims.
pub data UnlockOutcome (s : System) (m : ℕ) : Type 0 where
  unlocks :
      (k : Kernel)
      → s.claims s.kernel.cur_tcb m ≡ true
      → mutex_unlock_syscall (pos m) s.kernel ≡ returned k (pos 0)
      → UnlockOutcome s m
  refuses :
      (k : Kernel)
      → s.claims s.kernel.cur_tcb m ≡ false
      → mutex_unlock_syscall (pos m) s.kernel ≡ returned k eperm
      → UnlockOutcome s m

false_unless : (b : Bool) → b ≢ true → b ≡ false
false_unless true h = absurd (h refl)
false_unless false h = refl

module _ {n : ℕ} {s : System} (inv : Inv n s) (m : ℕ) (caller : IsCaller s)
    (created : IsCreated s.kernel m) where
  open inv use {waiting, wf, claimed, known}
  open wf use {sound}

  lock_by_holder :
      (holder : Option ℕ) → (s.kernel.gt_mutex m).p_holding_tcb ≡ holder → LockOutcome s m
  lock_by_holder none e =
      let free : (s.kernel.gt_mutex m).b_lock ≡ false =
        ground (arith, sound.owned.locked m, created.small) in
      let (k, returns, _, _) = mutex_lock-takes wf m created free in
      succeeds k e (λ t. false_unless (s.claims t m) (λ c. ground (arith, claimed t m c))) returns
  lock_by_holder (some holder) e = elim (Bool-cases (holder == s.kernel.cur_tcb)) [
    | inl mine ↦
        let same : holder ≡ s.kernel.cur_tcb = ground arith in
        let held : (s.kernel.gt_mutex m).p_holding_tcb ≡ some s.kernel.cur_tcb = rw same at e in
        deadlocks _ held
          (ground (arith, known s.kernel.cur_tcb m created.small held, caller.in_user))
          (mutex_lock_edeadlock wf m created held)
    | inr other ↦
        let busy : (s.kernel.gt_mutex m).b_lock ≡ true =
          ground (arith, sound.owned.locked m, created.small) in
        let not_mine : is_holder (s.kernel.gt_mutex m).p_holding_tcb s.kernel.cur_tcb ≡ false =
          rw e other in
        let (k, switches, _, _, _) = mutex_lock-waits wf m created busy not_mine caller.not_idle in
        waits k holder e (ground arith)
          (false_unless (s.claims s.kernel.cur_tcb m)
            (λ c. ground (arith, claimed s.kernel.cur_tcb m c)))
          (known holder m created.small e) switches
  ]

  -- Where the claim decides, and the queue of the mutex.
  unlock_claimed :
      s.claims s.kernel.cur_tcb m ≡ true → (queue : List ℕ) → waiting m ≡ queue → UnlockOutcome s m
  unlock_claimed mine [] e =
      let (k, returns, _, _, _) =
        mutex_unlock-frees wf m created (claimed s.kernel.cur_tcb m mine).1 e in
      unlocks k mine returns
  unlock_claimed mine (t ∷ rest) e =
      let (k, returns, _, _, _) =
        mutex_unlock-hands_over wf m created (claimed s.kernel.cur_tcb m mine).1 t rest e in
      unlocks k mine returns

  unlock_by_claim : UnlockOutcome s m
  unlock_by_claim = elim (Bool-cases (s.claims s.kernel.cur_tcb m)) [
    | inl mine ↦ unlock_claimed mine (waiting m) refl
    | inr other ↦ refuses _ other (
        mutex_unlock_eperm wf m created
          (λ held. ground (arith, known s.kernel.cur_tcb m created.small held, caller.in_user)))
  ]

module _ (a : Addresses) (tasks : ℕ → Task) (n : ℕ) (k : Kernel) (quiet : IsQuiet k)
    (few : n ≤ os_max_tasks) {s : System} (r : Reach (boot a tasks n k) s) (caller : IsCaller s)
    (m : ℕ) (created : IsCreated s.kernel m) where
  -- In every state that at most 64 tasks reach, started from a state in which no task sleeps and no
  -- mutex is locked, a call of a task other than the idle task to lock a created mutex returns EDEADLOCK exactly if the caller holds it,
  -- and then the caller's last successful call on it was a lock. It returns 0 exactly if nobody holds it,
  -- and then nobody's last successful call on it was a lock. Otherwise the caller waits, and its own last
  -- successful call on it was no lock; the holder is another task, whose last one was a lock or which has
  -- been handed the mutex and is still inside its call.
  pub lock_decided : LockOutcome s m
  lock_decided =
      let inv = reached a tasks n k quiet few r in
      lock_by_holder inv m caller created (s.kernel.gt_mutex m).p_holding_tcb refl

  -- In every state that at most 64 tasks reach, started from a state in which no task sleeps and no
  -- mutex is locked, a call to unlock a created mutex returns 0 if the caller's last successful
  -- call on the mutex was a lock, and EPERM otherwise.
  pub unlock_decided : UnlockOutcome s m
  unlock_decided = unlock_by_claim (reached a tasks n k quiet few r) m caller created
