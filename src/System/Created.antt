-- ===== src/System/Created.antt =====
-- A mutex that has been created stays created.
use embd_lab.Prelude.{
  ℕ, ℤ, pos, ◌≡◌, inl, inr, Option, none, Option-cases, some, arith, Bool-cases, ◌∙◌, sym, ap, ltb,
  ◌-◌,
}
use embd_lab.Kernel.{Kernel, num_devices}
use embd_lab.Dispatch.{dispatch_save, enable_interrupts, disable_interrupts}
use embd_lab.Syscall.{returned, switched}
use embd_lab.Mutex.{
  mutex_lock_syscall, mutex_lock_resume, mutex_unlock_syscall, block_on, take_mutex, release,
}
use embd_lab.Mutex.Create.{hand_out, mutex_create_lem}
use embd_lab.SleepQueue.{append_current, link_last}
use embd_lab.Proc.{event_wait_syscall}
use embd_lab.Irq.Period.{c_irq_handler_lem}
use embd_lab.WellFormed.Lock.{IsCreated}
use embd_lab.WellFormed.Sleep.{dev_wait-sleeps}
use embd_lab.System.{
  System, IsCaller, Step, create, lock_returns, lock_waits, lock_resumes, unlock, event_wait_fails,
  event_wait, interrupt, Reach, here, next,
}
use embd_lab.System.Invariant.{Reach-Inv}
use embd_lab.System.Invariant.Defs.{Inv}

-- The same mutexes are created.
abbrev SameCreated : Kernel → Kernel → Type 0
SameCreated k k' = (i : ℕ) → (k'.gt_mutex i).b_available ≡ (k.gt_mutex i).b_available

lock-returned :
    (m : ℕ) (k k' : Kernel) (r : ℤ)
    → mutex_lock_syscall (pos m) k ≡ returned k' r
    → SameCreated k k'
unfolding mutex_lock_syscall block_on enable_interrupts disable_interrupts take_mutex
lock-returned m k k' r e i = ground arith

append_current-mutex :
    (head head' : Option ℕ) (k k' : Kernel)
    → append_current head k ≡ some (head', k')
    → k'.gt_mutex ≡ k.gt_mutex
unfolding append_current link_last
append_current-mutex none head' k k' e = ground arith
append_current-mutex (some p) head' k k' e = ground arith

block_on-switched :
    (m : ℕ) (k k' : Kernel) (i : ℕ)
    → block_on m k ≡ switched k'
    → (k'.gt_mutex i).b_available ≡ (k.gt_mutex i).b_available
unfolding block_on dispatch_save enable_interrupts
block_on-switched m k k' i e = elim (Option-cases (append_current (k.gt_mutex m).p_sleep_queue k)) [
  | inl lost ↦ absurd (ground arith)
  | inr ((head, k₁), found) ↦
      let same = append_current-mutex (k.gt_mutex m).p_sleep_queue head k k₁ found in
      ground (arith, same)
]

lock-switched :
    (m : ℕ) (k k' : Kernel) → mutex_lock_syscall (pos m) k ≡ switched k' → SameCreated k k'
unfolding mutex_lock_syscall disable_interrupts
lock-switched m k k' e i = ground (arith, block_on-switched m (disable_interrupts k) k' i)

resume-returned :
    (m : ℕ) (k k' : Kernel) (r : ℤ) → mutex_lock_resume m k ≡ returned k' r → SameCreated k k'
unfolding mutex_lock_resume enable_interrupts disable_interrupts take_mutex
resume-returned m k k' r e i = ground arith

unlock-returned :
    (m : ℕ) (k k' : Kernel) (r : ℤ)
    → mutex_unlock_syscall (pos m) k ≡ returned k' r
    → SameCreated k k'
unfolding mutex_unlock_syscall release enable_interrupts disable_interrupts
unlock-returned m k k' r e i = ground arith

event_wait-returned :
    (dev : ℕ) (k k' : Kernel) (r : ℤ) → event_wait_syscall dev k ≡ returned k' r → k' ≡ k
unfolding event_wait_syscall
event_wait-returned dev k k' r e = ground arith

event_wait-created :
    {n : ℕ} {s : System} (dev : ℕ) (k' : Kernel)
    → Inv n s
    → IsCaller s
    → event_wait_syscall dev s.kernel ≡ switched k'
    → SameCreated s.kernel k'
unfolding event_wait_syscall
event_wait-created {s} dev k' inv caller e i = elim (Bool-cases (ltb (num_devices - 1) dev)) [
  | inl bad ↦ absurd (ground arith)
  | inr good ↦
      let (k₁, e₁, _, _, same) = dev_wait-sleeps inv.wf dev (ground arith) caller.not_idle in
      let same' : k₁ ≡ k' = ground (arith, e₁) in ground (arith, same)
]

-- A created mutex stays created in every step.
pub Step-IsCreated :
    {n : ℕ} {s t : System} {m : ℕ}
    → Inv n s
    → IsCreated s.kernel m
    → Step s t
    → IsCreated t.kernel m
unfolding hand_out
Step-IsCreated {s} {m} inv c (create {k} {r} caller e) = elim (mutex_create_lem s.kernel) [
  | inl (all, e') ↦
      let same : k ≡ s.kernel = ap (λ p. p.0) (sym e ∙ e') in
      record { small = c.small; taken = rw same c.taken }
  | inr (i, first, e') ↦
      let same : k ≡ hand_out i s.kernel = ap (λ p. p.0) (sym e ∙ e') in
      record { small = c.small; taken = rw same (ground (arith, c.taken)) }
]
Step-IsCreated {s} {m} inv c (lock_returns {k} {r} i caller e) = record {
  small = c.small;
  taken = lock-returned i s.kernel k r e m ∙ c.taken;
}
Step-IsCreated {s} {m} inv c (lock_waits {k} i caller e) = record {
  small = c.small;
  taken = lock-switched i s.kernel k e m ∙ c.taken;
}
Step-IsCreated {s} {m} inv c (lock_resumes {k} {r} i inside e) = record {
  small = c.small;
  taken = resume-returned i s.kernel k r e m ∙ c.taken;
}
Step-IsCreated {s} {m} inv c (unlock {k} {r} i caller e) = record {
  small = c.small;
  taken = unlock-returned i s.kernel k r e m ∙ c.taken;
}
Step-IsCreated {s} {m} inv c (event_wait_fails {k} {r} dev caller e) = record {
  small = c.small;
  taken = rw (event_wait-returned dev s.kernel k r e) c.taken;
}
Step-IsCreated {s} {m} inv c (event_wait {k} dev caller e) = record {
  small = c.small;
  taken = event_wait-created dev k inv caller e m ∙ c.taken;
}
Step-IsCreated {s} {m} inv c (interrupt {k} e) =
    let (k₁, e₁, u) = c_irq_handler_lem inv.wf in
    let same : k₁ ≡ k = ground arith in
    record { small = c.small; taken = ground (arith, u.same_mutex, c.taken) }

pub Reach-IsCreated :
    {n : ℕ} {s t : System} {m : ℕ}
    → Inv n s
    → IsCreated s.kernel m
    → Reach s t
    → IsCreated t.kernel m
Reach-IsCreated inv c here = c
Reach-IsCreated inv c (next r st) = Step-IsCreated (Reach-Inv inv r) (Reach-IsCreated inv c r) st
