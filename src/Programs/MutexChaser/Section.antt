-- ===== src/Programs/MutexChaser/Section.antt =====
-- The critical sections of mutex_chaser.c.
use embd_lab.Prelude.{ℕ, ℤ, pos, negsuc, ◌≡◌, ◌⊎◌, inl, Bool, true, false, arith, ◌==◌}
use embd_lab.System.{is_zero}
use embd_lab.Programs.Machine.{mutex_lock, mutex_unlock}
use embd_lab.Programs.Exclusive.{IsGuarded}
use embd_lab.Programs.MutexChaser.{
  Fun, fun1, fun2, fun3, fun4, Point, testing, locking, reading, writing, unlocking, failed_unlock,
  waiting, checking, resting, panicked, Globals, request, resume, step, runs_fun, mutex_chaser,
}

-- The points between a call that locks mutex `m` and the one that unlocks it.
abbrev pub touches : Point → ℕ → Bool
touches (reading cur) m = cur == m
touches (writing cur v) m = cur == m
touches _ m = false

resume-touches :
    (f : Fun) (p : Point) (r : ℤ) (g : Globals) (i : ℕ)
    → touches (resume f p r g).0 i ≡ true
    → (touches p i ≡ true) ⊎ ((request f p ≡ mutex_lock i) × (is_zero r ≡ true))
unfolding resume request
resume-touches f (locking cur) (pos r) g i h = ground arith
resume-touches f (locking cur) (negsuc r) g i h = ground arith
resume-touches fun1 (unlocking cur) r g i h = ground arith
resume-touches fun2 (unlocking cur) r g i h = ground arith
resume-touches fun3 (unlocking cur) r g i h = ground arith
resume-touches fun4 (unlocking cur) r g i h = ground arith
resume-touches f (waiting cur) r g i h = ground arith
resume-touches f resting r g i h = ground arith
resume-touches f (testing cur) r g i h = absurd (ground arith)
resume-touches f (reading cur) r g i h = inl h
resume-touches f (writing cur v) r g i h = inl h
resume-touches f failed_unlock r g i h = absurd (ground arith)
resume-touches f (checking j) r g i h = absurd (ground arith)
resume-touches f panicked r g i h = absurd (ground arith)

step-touches :
    (f : Fun) (p : Point) (g : Globals) (i : ℕ)
    → touches (step f p g).0 i ≡ true
    → touches p i ≡ true
unfolding step
step-touches fun1 (testing cur) g i h = ground arith
step-touches fun2 (testing cur) g i h = ground arith
step-touches fun3 (testing cur) g i h = ground arith
step-touches fun4 (testing cur) g i h = ground arith
step-touches f (reading cur) g i h = h
step-touches f (checking j) g i h = ground arith
step-touches f (writing cur v) g i h = ground arith
step-touches f failed_unlock g i h = ground arith
step-touches f (locking cur) g i h = h
step-touches f (unlocking cur) g i h = h
step-touches f (waiting cur) g i h = h
step-touches f resting g i h = h
step-touches f panicked g i h = h

unlocks-outside : (f : Fun) (p : Point) (m : ℕ) → request f p ≡ mutex_unlock m → touches p m ≡ false
unfolding request
unlocks-outside f (unlocking cur) m h = cc
unlocks-outside f (testing cur) m h = cc
unlocks-outside f (locking cur) m h = cc
unlocks-outside f (reading cur) m h = cc
unlocks-outside f (writing cur v) m h = cc
unlocks-outside f failed_unlock m h = cc
unlocks-outside f (waiting cur) m h = cc
unlocks-outside f (checking j) m h = cc
unlocks-outside f resting m h = cc
unlocks-outside f panicked m h = cc

pub mutex_chaser-IsGuarded : IsGuarded mutex_chaser (λ _. touches)
mutex_chaser-IsGuarded = record {
  resumes = λ t. resume-touches (runs_fun t);
  steps = λ t. step-touches (runs_fun t);
  leaves = λ t. unlocks-outside (runs_fun t);
}
