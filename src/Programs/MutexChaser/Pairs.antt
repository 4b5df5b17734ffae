-- ===== src/Programs/MutexChaser/Pairs.antt =====
-- mutex_chaser.c pairs its locks and unlocks, so its calls succeed.
use embd_lab.Prelude.{ℕ, ℤ, ◌<◌, ◌≤◌, ◌≡◌, ◌≢◌, refl, Bool, true, false, arith, ◌==◌, ltb}
use embd_lab.Kernel.{Task, Kernel, os_max_tasks, os_num_mutex}
use embd_lab.Sched.{Addresses}
use embd_lab.Sched.Start.{IsQuiet}
use embd_lab.Programs.Machine.{mutex_lock, mutex_unlock, work, Runs}
use embd_lab.Programs.Balanced.{IsBalanced, IsGranted, held_after}
use embd_lab.Programs.Balanced.Succeed.{stays_possible}
use embd_lab.Programs.MutexChaser.{
  Fun, fun1, fun2, fun3, fun4, Point, testing, locking, reading, writing, unlocking, failed_unlock,
  waiting, checking, resting, panicked, Globals, mutex_num, request, after_unlock, resume, step,
  runs_fun, mutex_chaser,
}
use embd_lab.Programs.MutexChaser.Updates.{Chase, chase_start}

-- The points between a lock and its unlock.
abbrev holds : Point → ℕ → Bool
holds (reading cur) m = cur == m
holds (writing cur v) m = cur == m
holds (unlocking cur) m = cur == m
holds _ m = false

-- No call has failed, and the loop is in its bounds.
abbrev going : Point → Bool
going (locking cur) = ltb cur mutex_num
going (reading cur) = ltb cur mutex_num
going (writing cur v) = ltb cur mutex_num
going (unlocking cur) = ltb cur mutex_num
going failed_unlock = false
going panicked = false
going _ = true

abbrev exists : ℕ → Bool
exists m = ltb m mutex_num

request-locks :
    (f : Fun) (p : Point) (m : ℕ)
    → going p ≡ true
    → request f p ≡ mutex_lock m
    → (holds p m ≡ false) × (exists m ≡ true)
unfolding request
request-locks f (locking cur) m on e = let same : cur ≡ m = ground arith in (refl, rw same at on)
request-locks f (testing cur) m on e = absurd (ground arith)
request-locks f _ m on e = absurd (ground arith)

request-unlocks : (f : Fun) (p : Point) (m : ℕ) → request f p ≡ mutex_unlock m → holds p m ≡ true
unfolding request
request-unlocks f (unlocking cur) m e = ground arith
request-unlocks f (testing cur) m e = absurd (ground arith)
request-unlocks f _ m e = absurd (ground arith)

resume-going :
    (f : Fun) (p : Point) (r : ℤ) (g : Globals)
    → going p ≡ true
    → IsGranted (request f p) r
    → (going (resume f p r g).0 ≡ true)
      × ((i : ℕ) → holds (resume f p r g).0 i ≡ held_after (request f p) (holds p) i)
unfolding request resume after_unlock
resume-going f (locking cur) r g on granted = rw (granted.zero_back refl) (on, λ i. ground arith)
resume-going fun1 (unlocking cur) r g on granted =
    rw (granted.zero_back refl) (refl, λ i. ground arith)
resume-going fun2 (unlocking cur) r g on granted =
    rw (granted.zero_back refl) (refl, λ i. ground arith)
resume-going fun3 (unlocking cur) r g on granted =
    rw (granted.zero_back refl) (refl, λ i. ground arith)
resume-going fun4 (unlocking cur) r g on granted =
    rw (granted.zero_back refl) (refl, λ i. ground arith)
resume-going f (waiting cur) r g on granted = rw granted.not_negative (refl, λ i. refl)
resume-going f resting r g on granted = rw granted.not_negative (refl, λ i. refl)
resume-going f (testing cur) r g on granted = (refl, λ i. refl)
resume-going f (checking j) r g on granted = (refl, λ i. refl)
resume-going f (reading cur) r g on granted = (on, λ i. refl)
resume-going f (writing cur v) r g on granted = (on, λ i. refl)
resume-going f failed_unlock r g on granted = absurd (cc)
resume-going f panicked r g on granted = absurd (cc)

step-going :
    (f : Fun) (p : Point) (g : Globals)
    → going p ≡ true
    → request f p ≡ work
    → (going (step f p g).0 ≡ true) × ((i : ℕ) → holds (step f p g).0 i ≡ holds p i)
unfolding request step
step-going fun1 (testing cur) g on e = (ground arith, λ i. ground arith)
step-going fun2 (testing cur) g on e = (ground arith, λ i. ground arith)
step-going fun3 (testing cur) g on e = (ground arith, λ i. ground arith)
step-going fun4 (testing cur) g on e = (ground arith, λ i. ground arith)
step-going f (reading cur) g on e = (on, λ i. refl)
step-going f (writing cur v) g on e = (on, λ i. refl)
step-going f (checking j) g on e = (ground arith, λ i. ground arith)
step-going f (locking cur) g on e = absurd (ground arith)
step-going f (unlocking cur) g on e = absurd (ground arith)
step-going f (waiting cur) g on e = absurd (ground arith)
step-going f resting g on e = absurd (ground arith)
step-going f failed_unlock g on e = absurd (cc)
step-going f panicked g on e = absurd (cc)

pub mutex_chaser-IsBalanced : IsBalanced mutex_chaser (λ _. holds) (λ _. going) exists
mutex_chaser-IsBalanced = record {
  locks = λ t p m on e. request-locks (runs_fun t) p m on e;
  unlocks = λ t p m on e. request-unlocks (runs_fun t) p m e;
  resumes = λ t p r g on granted. resume-going (runs_fun t) p r g on granted;
  steps = λ t p g on e. step-going (runs_fun t) p g on e;
}

module _ (a : Addresses) (tasks : ℕ → Task) (n : ℕ) (k : Kernel) (quiet : IsQuiet k)
    (few : n ≤ os_max_tasks) (g : Globals) where
  -- Where at most 64 tasks start from a state in which no task sleeps and no mutex is locked, and
  -- all 32 mutexes have been created, no call of mutex_chaser.c fails, however its tasks and the
  -- timer interrupt one another: no task is ever in `panic`, or on its way there.
  pub never_panics :
      {c : Chase} (t : ℕ)
      → ((m : ℕ) → m < os_num_mutex → (k.gt_mutex m).b_available ≡ false)
      → Runs mutex_chaser (chase_start a tasks n k quiet few g) c
      → (c.at t ≢ panicked) × (c.at t ≢ failed_unlock)
  never_panics {c} t created runs =
      let on : going (c.at t) ≡ true =
        stays_possible mutex_chaser (λ _. holds) (λ _. going) exists mutex_chaser-IsBalanced a tasks
          n k quiet few (λ m e. record { small = ground arith; taken = created m (ground arith) })
          (λ _. testing 1) g (λ t i. refl) (λ t. refl) t runs in
      (
        λ e. let stopped : false ≡ true = rw e at on in cc,
        λ e. let stopped : false ≡ true = rw e at on in cc,
      )
