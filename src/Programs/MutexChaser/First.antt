-- ===== src/Programs/MutexChaser/First.antt =====
-- Mutex 0 of mutex_chaser.c: the loops begin at 1, and the check of the results at 0.
use embd_lab.Prelude.{
  ℕ, ℤ, ◌<◌, ◌≤◌, ◌≡◌, refl, [], ◌∷◌, ◌++◌, arith, ◌∙◌, ◌==◌, update, Bool-cases, inl, inr,
}
use embd_lab.Kernel.{Task, Kernel, os_max_tasks}
use embd_lab.Sched.{Addresses}
use embd_lab.Sched.Start.{IsQuiet}
use embd_lab.Programs.{printf, puts}
use embd_lab.Programs.Machine.{
  Run, works, receives, locks, blocks, is_granted, unlocks, fails_to_wait, waits, is_interrupted,
  Runs, begins, then_runs,
}
use embd_lab.Programs.MutexChaser.{
  Fun, fun1, fun2, fun3, fun4, Point, testing, locking, reading, writing, unlocking, failed_unlock,
  waiting, checking, resting, panicked, Globals, init_val, no_str, result_val, after_unlock, resume,
  step, runs_fun, mutex_chaser,
}
use embd_lab.Programs.MutexChaser.Updates.{Chase, chase_start}

-- The task is past mutex 0.
abbrev Later : Point → Type 0
Later (testing cur) = 0 < cur
Later (locking cur) = 0 < cur
Later (reading cur) = 0 < cur
Later (writing cur v) = 0 < cur
Later (unlocking cur) = 0 < cur
Later (waiting cur) = 0 < cur
Later _ = Unit {0}

abbrev Keeps : Globals → Point × Globals → Type 0
Keeps g (p, g') = Later p × (g'.mutex_val 0 ≡ g.mutex_val 0)

step-Keeps : (f : Fun) (p : Point) (g : Globals) → Later p → Keeps g (step f p g)
unfolding step
step-Keeps fun1 (testing cur) g h = ground arith
step-Keeps fun2 (testing cur) g h = ground arith
step-Keeps fun3 (testing cur) g h = ground arith
step-Keeps fun4 (testing cur) g h = ground arith
step-Keeps f (reading cur) g h = (h, refl)
step-Keeps f (writing cur v) g h = ground arith
step-Keeps f (checking i) g h = ground arith
step-Keeps f failed_unlock g h = ground arith
step-Keeps f (locking cur) g h = (h, refl)
step-Keeps f (unlocking cur) g h = (h, refl)
step-Keeps f (waiting cur) g h = (h, refl)
step-Keeps f resting g h = (h, refl)
step-Keeps f panicked g h = (h, refl)

resume-Keeps : (f : Fun) (p : Point) (r : ℤ) (g : Globals) → Later p → Keeps g (resume f p r g)
unfolding resume after_unlock
resume-Keeps f (locking cur) r g h = ground arith
resume-Keeps fun1 (unlocking cur) r g h = ground arith
resume-Keeps fun2 (unlocking cur) r g h = ground arith
resume-Keeps fun3 (unlocking cur) r g h = ground arith
resume-Keeps fun4 (unlocking cur) r g h = ground arith
resume-Keeps f (waiting cur) r g h = ground arith
resume-Keeps f resting r g h = ground arith
resume-Keeps f (testing cur) r g h = (h, refl)
resume-Keeps f (reading cur) r g h = (h, refl)
resume-Keeps f (writing cur v) r g h = (h, refl)
resume-Keeps f failed_unlock r g h = (h, refl)
resume-Keeps f (checking i) r g h = (h, refl)
resume-Keeps f panicked r g h = (h, refl)

record Untouched (v : ℕ) (c : Chase) : Type 0 where
  later : (t : ℕ) → Later (c.at t)
  value : c.globals.mutex_val 0 ≡ v

moved : (f : ℕ → Point) (i t : ℕ) (p : Point) → Later p → Later (f t) → Later (update f i p t)
moved f i t p new old = elim (Bool-cases (i == t)) [
  | inl same ↦ rw same new
  | inr other ↦ rw other old
]

Run-Untouched : {v : ℕ} {c d : Chase} → Untouched v c → Run mutex_chaser c d → Untouched v d
Run-Untouched {c} u (works a) =
    let cur = c.sys.kernel.cur_tcb in
    let (now, same) = step-Keeps (runs_fun cur) (c.at cur) c.globals (u.later cur) in
    record { later = λ t. moved c.at cur t _ now (u.later t); value = same ∙ u.value }
Run-Untouched {c} u (receives {r} a e) =
    let cur = c.sys.kernel.cur_tcb in
    let (now, same) = resume-Keeps (runs_fun cur) (c.at cur) r c.globals (u.later cur) in
    record { later = λ t. moved c.at cur t _ now (u.later t); value = same ∙ u.value }
Run-Untouched u (locks m a e) = record { later = u.later; value = u.value }
Run-Untouched u (blocks m a e) = record { later = u.later; value = u.value }
Run-Untouched u (is_granted m p e) = record { later = u.later; value = u.value }
Run-Untouched u (unlocks m a e) = record { later = u.later; value = u.value }
Run-Untouched u (fails_to_wait dev a e) = record { later = u.later; value = u.value }
Run-Untouched u (waits dev a e) = record { later = u.later; value = u.value }
Run-Untouched u (is_interrupted e) = record { later = u.later; value = u.value }

module _ (a : Addresses) (tasks : ℕ → Task) (n : ℕ) (k : Kernel) (quiet : IsQuiet k)
    (few : n ≤ os_max_tasks) (g : Globals) where
  Runs-Untouched :
      {c : Chase}
      → Runs mutex_chaser (chase_start a tasks n k quiet few g) c
      → Untouched (g.mutex_val 0) c
  Runs-Untouched begins = record { later = λ t. omega arith; value = refl }
  Runs-Untouched (then_runs rs st) = Run-Untouched (Runs-Untouched rs) st

  -- Where the numbers start as `init_val`, the first line of the check of mutex_chaser.c is always
  -- "No!": nobody writes the number behind mutex 0, and 2 is not the result that is compared with it.
  pub first_check_fails :
      {c : Chase}
      → Runs mutex_chaser (chase_start a tasks n k quiet few g) c
      → g.mutex_val 0 ≡ init_val
      → (step fun4 (checking 0) c.globals).1.console
        ≡ c.globals.console
          ++ printf "Final mutex%d value %d == result value %d\n" (0 ∷ init_val ∷ result_val ∷ [])
            ∷ puts no_str
            ∷ []
  unfolding step
  first_check_fails {c} rs e =
      let same : c.globals.mutex_val 0 ≡ init_val = (Runs-Untouched rs).value ∙ e in rw same refl
