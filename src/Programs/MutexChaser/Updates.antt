-- ===== src/Programs/MutexChaser/Updates.antt =====
-- The numbers behind the mutexes of mutex_chaser.c: no update is lost.
use embd_lab.Prelude.{
  ℕ, ◌≤◌, ◌≡◌, refl, Bool, true, false, List, [], ◌∷◌, arith, ◌==◌, if◌then◌else◌, ℤ, Bool-cases,
  inl, inr, ◌∙◌, sym,
}
use embd_lab.Kernel.{Task, Kernel, os_max_tasks}
use embd_lab.Sched.{Addresses}
use embd_lab.Sched.Start.{IsQuiet}
use embd_lab.Programs.Machine.{
  Config, Run, works, receives, locks, blocks, is_granted, unlocks, fails_to_wait, waits,
  is_interrupted, Runs, begins, then_runs,
}
use embd_lab.Programs.Exclusive.{started_config, exclusive}
use embd_lab.Programs.MutexChaser.{
  Fun, fun1, fun2, fun3, fun4, Point, testing, locking, reading, writing, unlocking, failed_unlock,
  waiting, checking, resting, panicked, Globals, operation, after_unlock, resume, step, runs_fun,
  mutex_chaser,
}
use embd_lab.Programs.MutexChaser.Section.{touches, mutex_chaser-IsGuarded}

abbrev pub Chase : Type 0
Chase = Config Point Globals

-- The step of a task at `p` writes the number of mutex `m`.
abbrev pub writes : Point → ℕ → Bool
writes (writing cur v) m = cur == m
writes _ m = false

-- Who has written the number of mutex `m`, the last one first.
unfoldable pub noted : {c d : Chase} → Run mutex_chaser c d → (ℕ → List Fun) → ℕ → List Fun
noted {c} (works a) h =
    λ m. if writes (c.at c.sys.kernel.cur_tcb) m then runs_fun c.sys.kernel.cur_tcb ∷ h m else h m
noted (receives a e) h = h
noted (locks m a e) h = h
noted (blocks m a e) h = h
noted (is_granted m p e) h = h
noted (unlocks m a e) h = h
noted (fails_to_wait dev a e) h = h
noted (waits dev a e) h = h
noted (is_interrupted e) h = h

unfoldable pub history : {start c : Chase} → Runs mutex_chaser start c → ℕ → List Fun
history begins = λ _. []
history (then_runs rs st) = noted st (history rs)

-- The operations in this order, on a number.
unfoldable pub replay : List Fun → ℕ → ℕ
replay [] v = v
replay (f ∷ fs) v = operation f (replay fs v)

writes-eq : (p : Point) (m : ℕ) → writes p m ≡ true → (v : ℕ) × (p ≡ writing m v)
writes-eq (writing cur v) m h = let same : cur ≡ m = ground arith in (v, rw same)
writes-eq (testing cur) m h = absurd (ground arith)
writes-eq (locking cur) m h = absurd (ground arith)
writes-eq (reading cur) m h = absurd (ground arith)
writes-eq (unlocking cur) m h = absurd (ground arith)
writes-eq failed_unlock m h = absurd (ground arith)
writes-eq (waiting cur) m h = absurd (ground arith)
writes-eq (checking i) m h = absurd (ground arith)
writes-eq resting m h = absurd (ground arith)
writes-eq panicked m h = absurd (ground arith)

-- A step changes only the number that it writes.
step-keeps :
    (f : Fun) (p : Point) (g : Globals) (m : ℕ)
    → writes p m ≡ false
    → (step f p g).1.mutex_val m ≡ g.mutex_val m
unfolding step
step-keeps f (testing cur) g m h = ground arith
step-keeps f (writing cur v) g m h = ground arith
step-keeps f (checking i) g m h = ground arith
step-keeps f failed_unlock g m h = ground arith
step-keeps f (locking cur) g m h = refl
step-keeps f (reading cur) g m h = refl
step-keeps f (unlocking cur) g m h = refl
step-keeps f (waiting cur) g m h = refl
step-keeps f resting g m h = refl
step-keeps f panicked g m h = refl

step-writes :
    (f : Fun) (g : Globals) (m v : ℕ) → (step f (writing m v) g).1.mutex_val m ≡ operation f v
unfolding step
step-writes f g m v = ground arith

-- A task that is about to write has just read the number.
step-fresh :
    (f : Fun) (p : Point) (g : Globals) (m v : ℕ)
    → (step f p g).0 ≡ writing m v
    → v ≡ (step f p g).1.mutex_val m
unfolding step
step-fresh fun1 (testing cur) g m v h = absurd (ground arith)
step-fresh fun2 (testing cur) g m v h = absurd (ground arith)
step-fresh fun3 (testing cur) g m v h = absurd (ground arith)
step-fresh fun4 (testing cur) g m v h = absurd (ground arith)
step-fresh f (reading cur) g m v h = ground arith
step-fresh f (writing cur w) g m v h = absurd (ground arith)
step-fresh f (checking i) g m v h = absurd (ground arith)
step-fresh f failed_unlock g m v h = absurd (ground arith)
step-fresh f (locking cur) g m v h = absurd (ground arith)
step-fresh f (unlocking cur) g m v h = absurd (ground arith)
step-fresh f (waiting cur) g m v h = absurd (ground arith)
step-fresh f resting g m v h = absurd (ground arith)
step-fresh f panicked g m v h = absurd (ground arith)

-- The result of a call changes no number, and leads to no write.
resume-keeps :
    (f : Fun) (p : Point) (r : ℤ) (g : Globals) (m : ℕ)
    → ((resume f p r g).1.mutex_val m ≡ g.mutex_val m)
      × ((v : ℕ) → (resume f p r g).0 ≡ writing m v → p ≡ writing m v)
unfolding resume after_unlock
resume-keeps f (locking cur) r g m = (ground arith, λ v h. absurd (ground arith))
resume-keeps fun1 (unlocking cur) r g m = (ground arith, λ v h. absurd (ground arith))
resume-keeps fun2 (unlocking cur) r g m = (ground arith, λ v h. absurd (ground arith))
resume-keeps fun3 (unlocking cur) r g m = (ground arith, λ v h. absurd (ground arith))
resume-keeps fun4 (unlocking cur) r g m = (ground arith, λ v h. absurd (ground arith))
resume-keeps f (waiting cur) r g m = (ground arith, λ v h. absurd (ground arith))
resume-keeps f resting r g m = (ground arith, λ v h. absurd (ground arith))
resume-keeps f (testing cur) r g m = (refl, λ v h. h)
resume-keeps f (reading cur) r g m = (refl, λ v h. h)
resume-keeps f (writing cur v) r g m = (refl, λ w h. h)
resume-keeps f failed_unlock r g m = (refl, λ v h. h)
resume-keeps f (checking i) r g m = (refl, λ v h. h)
resume-keeps f panicked r g m = (refl, λ v h. h)

-- The number behind each mutex, and what a task that is about to write has read.
record Consistent (init : ℕ → ℕ) (h : ℕ → List Fun) (c : Chase) : Type 0 where
  value : (m : ℕ) → c.globals.mutex_val m ≡ replay (h m) (init m)
  fresh : (t m v : ℕ) → c.at t ≡ writing m v → v ≡ c.globals.mutex_val m

abbrev Exclusive : Chase → Type 0
Exclusive c = (m t u : ℕ) → touches (c.at t) m ≡ true → touches (c.at u) m ≡ true → t ≡ u

module _ {init : ℕ → ℕ} {h : ℕ → List Fun} {c : Chase} (before : Consistent init h c)
    (alone : Exclusive c) where
  abbrev cur : ℕ
  cur = c.sys.kernel.cur_tcb

  abbrev after : Point × Globals
  after = step (runs_fun cur) (c.at cur) c.globals

  works-value :
      (m : ℕ)
      → after.1.mutex_val m
        ≡ replay (if writes (c.at cur) m then runs_fun cur ∷ h m else h m) (init m)
  unfolding replay
  works-value m = elim (Bool-cases (writes (c.at cur) m)) [
    | inl yes_writes ↦
        let (v, at) = writes-eq (c.at cur) m yes_writes in
        let read = before.fresh cur m v at in
        rw (yes_writes, at, step-writes (runs_fun cur) c.globals m v, read, before.value m) refl
    | inr not_writes ↦
        rw not_writes (step-keeps (runs_fun cur) (c.at cur) c.globals m not_writes ∙ before.value m)
  ]

  works-fresh :
      (t m v : ℕ) → (if cur == t then after.0 else c.at t) ≡ writing m v → v ≡ after.1.mutex_val m
  works-fresh t m v e = elim (Bool-cases (cur == t)) [
    | inl same ↦ step-fresh (runs_fun cur) (c.at cur) c.globals m v (rw same at e)
    | inr other ↦
        let at : c.at t ≡ writing m v = rw other at e in
        elim (Bool-cases (writes (c.at cur) m)) [
          | inl both ↦
              let (w, here) = writes-eq (c.at cur) m both in
              let it : touches (c.at t) m ≡ true = rw at (ground arith) in
              let ic : touches (c.at cur) m ≡ true = rw here (ground arith) in
              absurd (ground (arith, alone m cur t ic it))
          | inr not_both ↦
              before.fresh t m v at
              ∙ sym (step-keeps (runs_fun cur) (c.at cur) c.globals m not_both)
        ]
  ]

Run-Consistent :
    {init : ℕ → ℕ} {h : ℕ → List Fun} {c d : Chase}
    → Consistent init h c
    → Exclusive c
    → (st : Run mutex_chaser c d) → Consistent init (noted st h) d
unfolding noted
Run-Consistent b alone (works a) = record {
  value = works-value b alone;
  fresh = works-fresh b alone;
}
Run-Consistent {c} b alone (receives {r} a e) =
    let kept =
      resume-keeps (runs_fun c.sys.kernel.cur_tcb) (c.at c.sys.kernel.cur_tcb) r c.globals in
    record {
      value = λ m. (kept m).0 ∙ b.value m;
      fresh = λ t m v. ground (arith, (kept m).0, (kept m).1 v, b.fresh t m v);
    }
Run-Consistent b alone (locks m a e) = record { value = b.value; fresh = b.fresh }
Run-Consistent b alone (blocks m a e) = record { value = b.value; fresh = b.fresh }
Run-Consistent b alone (is_granted m p e) = record { value = b.value; fresh = b.fresh }
Run-Consistent b alone (unlocks m a e) = record { value = b.value; fresh = b.fresh }
Run-Consistent b alone (fails_to_wait dev a e) = record { value = b.value; fresh = b.fresh }
Run-Consistent b alone (waits dev a e) = record { value = b.value; fresh = b.fresh }
Run-Consistent b alone (is_interrupted e) = record { value = b.value; fresh = b.fresh }

module _ (a : Addresses) (tasks : ℕ → Task) (n : ℕ) (k : Kernel) (quiet : IsQuiet k)
    (few : n ≤ os_max_tasks) (g : Globals) where
  -- All tasks are at the start of their functions, where `cur_mutex` is 1.
  abbrev pub chase_start : Chase
  chase_start =
      started_config mutex_chaser (λ _. touches) mutex_chaser-IsGuarded a tasks n k quiet few
        (λ _. testing 1) g (λ t i. refl)

  pub chase-Exclusive : {c : Chase} → Runs mutex_chaser chase_start c → Exclusive c
  chase-Exclusive =
      exclusive mutex_chaser (λ _. touches) mutex_chaser-IsGuarded a tasks n k quiet few
        (λ _. testing 1) g (λ t i. refl)

  chase-Consistent :
      {c : Chase} → (rs : Runs mutex_chaser chase_start c) → Consistent g.mutex_val (history rs) c
  unfolding history replay
  chase-Consistent begins = record { value = λ m. refl; fresh = λ t m v. ground arith }
  chase-Consistent (then_runs rs st) = Run-Consistent (chase-Consistent rs) (chase-Exclusive rs) st

  -- However the four tasks of mutex_chaser.c and the timer interrupt one another, no update is lost: at
  -- any time the number behind each mutex is what the operations of those that have written it make of
  -- the first number, one after another in the order of the writes.
  pub no_lost_update :
      {c : Chase} (rs : Runs mutex_chaser chase_start c) (m : ℕ)
      → c.globals.mutex_val m ≡ replay (history rs m) (g.mutex_val m)
  no_lost_update rs = (chase-Consistent rs).value
