-- ===== src/Programs/Dagger/Section.antt =====
-- The critical sections of dagger.c, and the pairing of its locks and unlocks.
use embd_lab.Prelude.{ℕ, ℤ, pos, negsuc, ◌≡◌, refl, Bool, true, false, arith, ◌==◌, ◌&&◌}
use embd_lab.Programs.{is_negative}
use embd_lab.Programs.Machine.{mutex_lock, mutex_unlock}
use embd_lab.Programs.Balanced.{IsBalanced, held_after}
use embd_lab.Programs.Dagger.{
  Fun, fun1, fun2, fun3, fun4, Point, locking, printing, waiting, unlocking, resting, panicked,
  Globals, request, resume, step, runs_fun, dagger,
}

-- The points at which a function has the mutex.
abbrev pub in_section : Fun → Point → Bool
in_section fun1 (printing i) = true
in_section fun1 (waiting i) = true
in_section fun1 unlocking = true
in_section fun1 locking = false
in_section fun1 resting = false
in_section fun1 (panicked p) = in_section fun1 p
in_section fun3 (printing i) = true
in_section fun3 (waiting i) = true
in_section fun3 unlocking = true
in_section fun3 locking = false
in_section fun3 resting = false
in_section fun3 (panicked p) = in_section fun3 p
in_section fun2 p = false
in_section fun4 p = false

abbrev pub held : (mutex1 t : ℕ) → Point → ℕ → Bool
held mutex1 t p i = in_section (runs_fun t) p && (mutex1 == i)

-- No call has failed.
abbrev pub going : Point → Bool
going (panicked p) = false
going _ = true

resume-going :
    (f : Fun) (p : Point) (r : ℤ) (g : Globals)
    → going p ≡ true
    → is_negative r ≡ false
    → going (resume f p r g).0 ≡ true
unfolding resume
resume-going f p (negsuc r) g h e = absurd (cc)
resume-going f locking (pos r) g h e = refl
resume-going f (printing i) (pos r) g h e = refl
resume-going f (waiting i) (pos r) g h e = ground arith
resume-going f unlocking (pos r) g h e = refl
resume-going fun1 resting (pos r) g h e = refl
resume-going fun2 resting (pos r) g h e = refl
resume-going fun3 resting (pos r) g h e = refl
resume-going fun4 resting (pos r) g h e = refl
resume-going f (panicked p) (pos r) g h e = h

step-going : (f : Fun) (p : Point) (g : Globals) → going p ≡ true → going (step f p g).0 ≡ true
unfolding step
step-going fun1 (printing i) g h = ground arith
step-going fun2 (printing i) g h = refl
step-going fun3 (printing i) g h = refl
step-going fun4 (printing i) g h = refl
step-going f locking g h = refl
step-going f (waiting i) g h = refl
step-going f unlocking g h = refl
step-going f resting g h = refl
step-going f (panicked p) g h = h

module _ (mutex1 : ℕ) where
  request-locks :
      (f : Fun) (p : Point) (m : ℕ)
      → request mutex1 f p ≡ mutex_lock m
      → (in_section f p ≡ false) × (mutex1 ≡ m)
  unfolding request
  request-locks fun1 locking m e = ground arith
  request-locks fun1 (printing i) m e = absurd (ground arith)
  request-locks fun1 (waiting i) m e = absurd (ground arith)
  request-locks fun1 unlocking m e = absurd (ground arith)
  request-locks fun1 resting m e = absurd (ground arith)
  request-locks fun1 (panicked p) m e = absurd (ground arith)
  request-locks fun3 locking m e = ground arith
  request-locks fun3 (printing i) m e = absurd (ground arith)
  request-locks fun3 (waiting i) m e = absurd (ground arith)
  request-locks fun3 unlocking m e = absurd (ground arith)
  request-locks fun3 resting m e = absurd (ground arith)
  request-locks fun3 (panicked p) m e = absurd (ground arith)
  request-locks fun2 locking m e = absurd (ground arith)
  request-locks fun2 _ m e = absurd (ground arith)
  request-locks fun4 locking m e = absurd (ground arith)
  request-locks fun4 _ m e = absurd (ground arith)

  request-unlocks :
      (f : Fun) (p : Point) (m : ℕ)
      → request mutex1 f p ≡ mutex_unlock m
      → (in_section f p ≡ true) × (mutex1 ≡ m)
  unfolding request
  request-unlocks fun1 locking m e = absurd (ground arith)
  request-unlocks fun1 (printing i) m e = absurd (ground arith)
  request-unlocks fun1 (waiting i) m e = absurd (ground arith)
  request-unlocks fun1 unlocking m e = ground arith
  request-unlocks fun1 resting m e = absurd (ground arith)
  request-unlocks fun1 (panicked p) m e = absurd (ground arith)
  request-unlocks fun3 locking m e = absurd (ground arith)
  request-unlocks fun3 (printing i) m e = absurd (ground arith)
  request-unlocks fun3 (waiting i) m e = absurd (ground arith)
  request-unlocks fun3 unlocking m e = ground arith
  request-unlocks fun3 resting m e = absurd (ground arith)
  request-unlocks fun3 (panicked p) m e = absurd (ground arith)
  request-unlocks fun2 locking m e = absurd (ground arith)
  request-unlocks fun2 _ m e = absurd (ground arith)
  request-unlocks fun4 locking m e = absurd (ground arith)
  request-unlocks fun4 _ m e = absurd (ground arith)

  abbrev holds : Fun → Point → ℕ → Bool
  holds f p i = in_section f p && (mutex1 == i)

  resume-holds :
      (f : Fun) (p : Point) (r : ℤ) (g : Globals) (i : ℕ)
      → holds f (resume f p r g).0 i ≡ held_after (request mutex1 f p) (holds f p) i
  unfolding request resume
  resume-holds fun1 locking r g i = ground arith
  resume-holds fun1 (printing j) r g i = refl
  resume-holds fun1 (waiting j) r g i = ground arith
  resume-holds fun1 unlocking r g i = ground arith
  resume-holds fun1 resting r g i = ground arith
  resume-holds fun1 (panicked p) r g i = refl
  resume-holds fun3 locking r g i = ground arith
  resume-holds fun3 (printing j) r g i = refl
  resume-holds fun3 (waiting j) r g i = ground arith
  resume-holds fun3 unlocking r g i = ground arith
  resume-holds fun3 resting r g i = ground arith
  resume-holds fun3 (panicked p) r g i = refl
  resume-holds fun2 locking r g i = ground arith
  resume-holds fun2 _ r g i = ground arith
  resume-holds fun4 locking r g i = ground arith
  resume-holds fun4 _ r g i = ground arith

  step-in_section :
      (f : Fun) (p : Point) (g : Globals) → in_section f (step f p g).0 ≡ in_section f p
  unfolding step
  step-in_section fun1 (printing j) g = ground arith
  step-in_section fun1 _ g = refl
  step-in_section fun3 (printing j) g = refl
  step-in_section fun3 _ g = refl
  step-in_section fun2 p g = refl
  step-in_section fun4 p g = refl

  abbrev pub uses : ℕ → Bool
  uses m = mutex1 == m

  pub dagger-IsBalanced : IsBalanced (dagger mutex1) (held mutex1) (λ _. going) uses
  dagger-IsBalanced = record {
    locks = λ t p m on e. ground (arith, request-locks (runs_fun t) p m e);
    unlocks = λ t p m on e. ground (arith, request-unlocks (runs_fun t) p m e);
    resumes = λ t p r g on granted.
        (resume-going (runs_fun t) p r g on granted.not_negative, resume-holds (runs_fun t) p r g);
    steps = λ t p g on e.
        (step-going (runs_fun t) p g on, λ i. rw (step-in_section (runs_fun t) p g) refl);
  }
