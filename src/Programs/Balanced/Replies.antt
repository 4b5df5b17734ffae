-- ===== src/Programs/Balanced/Replies.antt =====
-- What the kernel has returned, and the tasks have not received.
use embd_lab.Prelude.{
  ℕ, ℤ, pos, ◌≡◌, inl, inr, refl, false, Option, none, some, arith, ◌==◌, update, Bool-cases,
}
use embd_lab.Kernel.{Kernel}
use embd_lab.Syscall.{returned}
use embd_lab.Proc.{event_wait_syscall}
use embd_lab.Programs.{is_negative}
use embd_lab.Programs.Machine.{Request, wait_event}
use embd_lab.Programs.Balanced.{IsGranted}

pub IsGranted-zero : {request : Request} {r : ℤ} → r ≡ pos 0 → IsGranted request r
IsGranted-zero e = record { zero_back = λ call. e; not_negative = rw e refl }

pub IsGranted-wait :
    (request : Request) {dev : ℕ} {r : ℤ}
    → request ≡ wait_event dev
    → is_negative r ≡ false
    → IsGranted request r
IsGranted-wait request asked e = record {
  zero_back = λ call. absurd (ground arith);
  not_negative = e;
}

pub event_wait-not_negative :
    (dev : ℕ) (k k' : Kernel) (r : ℤ)
    → event_wait_syscall dev k ≡ returned k' r
    → is_negative r ≡ false
unfolding event_wait_syscall
event_wait-not_negative dev k k' r e = ground arith

module _ {P : Type 0} (request : ℕ → P → Request) (at : ℕ → P) (replies : ℕ → Option ℤ) where
  -- Each reply that waits for its task grants the request.
  abbrev pub AllGranted : (ℕ → P) → (ℕ → Option ℤ) → Type 0
  AllGranted at replies = (t : ℕ) (r : ℤ) → replies t ≡ some r → IsGranted (request t (at t)) r

  pub moved_success :
      (cur : ℕ) (p : P)
      → AllGranted at replies
      → AllGranted (update at cur p) (update replies cur none)
  moved_success cur p old t r e = elim (Bool-cases (cur == t)) [
    | inl same ↦ absurd (ground arith)
    | inr other ↦ rw other (old t r (rw other at e))
  ]

  pub new_success :
      (cur : ℕ) (res : ℤ)
      → IsGranted (request cur (at cur)) res
      → AllGranted at replies
      → AllGranted at (update replies cur (some res))
  new_success cur res new old t r e = elim (Bool-cases (cur == t)) [
    | inl same ↦
        let e₁ : cur ≡ t = ground arith in let e₂ : res ≡ r = ground arith in rw (e₁, e₂) at new
    | inr other ↦ old t r (rw other at e)
  ]
