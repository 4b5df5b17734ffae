-- ===== src/Programs/Dagger/Fives.antt =====
-- What dagger.c prints: '>' never comes between the five '@' of a round.
use embd_lab.Prelude.{
  ℕ, zero, suc, ◌≤◌, ◌≡◌, ◌≢◌, refl, true, false, [], arith, ◌==◌, ℤ, update, ap, ◌∙◌, Bool-cases,
  inl, inr, none,
}
use embd_lab.Kernel.{Task, Kernel, os_max_tasks}
use embd_lab.Sched.{Addresses}
use embd_lab.Sched.Start.{IsQuiet}
use embd_lab.System.Safety.{boot}
use embd_lab.WellFormed.Lock.{IsCreated}
use embd_lab.Programs.Machine.{
  Config, mutex_unlock, work, Run, works, receives, locks, blocks, is_granted, unlocks,
  fails_to_wait, waits, is_interrupted, Runs, begins, then_runs,
}
use embd_lab.Programs.Balanced.Succeed.{balanced_exclusive}
use embd_lab.Programs.Dagger.{
  fun1, fun2, fun3, fun4, Point, locking, printing, waiting, unlocking, resting, panicked, Globals,
  request, resume, step, first, runs_fun, dagger,
}
use embd_lab.Programs.Dagger.Printed.{
  ats, in_order, printed, Round, step-Round, resume-Round, other_step-Round, other_resume-Round,
}
use embd_lab.Programs.Dagger.Section.{in_section, held, going, uses, dagger-IsBalanced}

-- A task that runs at `cur`, where `at` gives the points.
works-Round :
    (cur : ℕ) (at : ℕ → Point) (g : Globals)
    → ((i : ℕ) → runs_fun cur ≡ fun3 → at cur ≡ printing i → printed (at 1) ≡ 0)
    → Round (at 1) g.console
    → Round
        (update at cur (step (runs_fun cur) (at cur) g).0 1)
        (step (runs_fun cur) (at cur) g).1.console
works-Round zero at g between r = other_step-Round fun4 (at 0) (at 1) g (λ e. cc) between r
works-Round (suc zero) at g between r = step-Round (at 1) g r
works-Round (suc (suc zero)) at g between r =
    other_step-Round fun2 (at 2) (at 1) g (λ e. cc) between r
works-Round (suc (suc (suc t))) at g between r =
    let elsewhere : (suc (suc (suc t)) == 1) ≡ false = ground arith in
    rw elsewhere (other_step-Round fun3 (at (suc (suc (suc t)))) (at 1) g (λ e. cc) between r)

receives-Round :
    (cur : ℕ) (at : ℕ → Point) (v : ℤ) (g : Globals)
    → Round (at 1) g.console
    → Round
        (update at cur (resume (runs_fun cur) (at cur) v g).0 1)
        (resume (runs_fun cur) (at cur) v g).1.console
receives-Round zero at v g r = other_resume-Round fun4 (at 0) (at 1) v g r
receives-Round (suc zero) at v g r = resume-Round (at 1) v g r
receives-Round (suc (suc zero)) at v g r = other_resume-Round fun2 (at 2) (at 1) v g r
receives-Round (suc (suc (suc t))) at v g r =
    let elsewhere : (suc (suc (suc t)) == 1) ≡ false = ground arith in
    rw elsewhere (other_resume-Round fun3 (at (suc (suc (suc t)))) (at 1) v g r)

-- Between the first and the last character of a round `fun1` has the mutex and keeps it.
started-holds :
    (mutex1 m : ℕ) (p : Point)
    → printed p ≢ 0
    → (in_section fun1 p ≡ true) × (request mutex1 fun1 p ≢ mutex_unlock m)
unfolding request
started-holds mutex1 m locking h = absurd (h refl)
started-holds mutex1 m (printing i) h = (refl, λ e. cc)
started-holds mutex1 m (waiting i) h = (refl, λ e. cc)
started-holds mutex1 m unlocking h = absurd (h refl)
started-holds mutex1 m resting h = absurd (h refl)
started-holds mutex1 m (panicked p) h = ((started-holds mutex1 m p h).0, λ e. cc)

module _ (mutex1 : ℕ) (a : Addresses) (tasks : ℕ → Task) (n : ℕ) (k : Kernel) (quiet : IsQuiet k)
    (few : n ≤ os_max_tasks) (created : IsCreated k mutex1) (g : Globals) where
  -- All tasks are at the start of their functions.
  abbrev pub dagger_start : Config Point Globals
  dagger_start = record {
    sys = boot a tasks n k;
    at = λ t. first (runs_fun t);
    replies = λ _. none;
    globals = g;
  }

  pub first-outside : (t i : ℕ) → held mutex1 t (first (runs_fun t)) i ≡ false
  first-outside zero i = refl
  first-outside (suc zero) i = refl
  first-outside (suc (suc zero)) i = refl
  first-outside (suc (suc (suc t))) i = refl

  pub first-going : (t : ℕ) → going (first (runs_fun t)) ≡ true
  first-going zero = refl
  first-going (suc zero) = refl
  first-going (suc (suc zero)) = refl
  first-going (suc (suc (suc t))) = refl

  pub all_created : (m : ℕ) → uses mutex1 m ≡ true → IsCreated k m
  all_created m used = let same : mutex1 ≡ m = ground arith in rw same at created

  -- While `fun3` prints, `fun1` is not between the characters of a round.
  apart :
      {c : Config Point Globals} (cur i : ℕ)
      → Runs (dagger mutex1) dagger_start c
      → runs_fun cur ≡ fun3
      → c.at cur ≡ printing i
      → printed (c.at 1) ≡ 0
  unfolding request
  apart {c} cur i runs role here = elim (Bool-cases (printed (c.at 1) == 0)) [
    | inl done ↦ ground arith
    | inr started ↦
        let (inside, keeps) = started-holds mutex1 mutex1 (c.at 1) (ground arith) in
        let same : 1 ≡ cur =
          balanced_exclusive (dagger mutex1) (held mutex1) (λ _. going) (uses mutex1)
            (dagger-IsBalanced mutex1) a tasks n k quiet few all_created (λ t. first (runs_fun t)) g
            first-outside first-going mutex1 1 cur runs (ground (arith, inside)) keeps
            (rw (role, here) (ground arith))
            (λ e. let works_on : work ≡ mutex_unlock mutex1 = rw (role, here) at e in cc) in
        let role₁ : fun1 ≡ fun3 = ap runs_fun same ∙ role in absurd (cc)
  ]

  Run-Round :
      {c d : Config Point Globals}
      → Runs (dagger mutex1) dagger_start c
      → Round (c.at 1) c.globals.console
      → Run (dagger mutex1) c d
      → Round (d.at 1) d.globals.console
  Run-Round {c} runs h (works x) =
      let cur = c.sys.kernel.cur_tcb in
      works-Round cur c.at c.globals (λ i role here. apart cur i runs role here) h
  Run-Round {c} runs h (receives {r = r} x e) =
      receives-Round c.sys.kernel.cur_tcb c.at r c.globals h
  Run-Round runs h (locks m x e) = h
  Run-Round runs h (blocks m x e) = h
  Run-Round runs h (is_granted m p e) = h
  Run-Round runs h (unlocks m x e) = h
  Run-Round runs h (fails_to_wait dev x e) = h
  Run-Round runs h (waits dev x e) = h
  Run-Round runs h (is_interrupted e) = h

  Runs-Round :
      {c : Config Point Globals}
      → g.console ≡ []
      → Runs (dagger mutex1) dagger_start c
      → Round (c.at 1) c.globals.console
  Runs-Round empty begins = record {
    looping = refl;
    fives = ground (arith, ap ats empty);
    ordered = ground (arith, ap (in_order 0) empty);
  }
  Runs-Round empty (then_runs rs st) = Run-Round rs (Runs-Round empty rs) st

  -- Where at most 64 tasks start from a state in which no task sleeps and no mutex is locked, the
  -- mutex of dagger.c has been created, nothing has been printed and every task is at the start of
  -- its function of dagger.c, each '>' is printed after a multiple of five '@', however the tasks
  -- and the timer interrupt one another: never between the five of a round.
  pub whole_rounds :
      {c : Config Point Globals}
      → g.console ≡ []
      → Runs (dagger mutex1) dagger_start c
      → in_order 0 c.globals.console ≡ true
  whole_rounds empty runs = (Runs-Round empty runs).ordered
