-- ===== src/Programs/Dagger/Start.antt =====
-- `main` of dagger.c.
use embd_lab.Prelude.{ℕ, zero, suc, ◌<◌, ◌≡◌, refl, pos, arith}
use embd_lab.Kernel.{Task, Kernel}
use embd_lab.Device.{dev_init}
use embd_lab.Sched.{Addresses, allocate_tasks}
use embd_lab.Sched.Start.{IsQuiet}
use embd_lab.WellFormed.Lock.{IsCreated}
use embd_lab.Proc.{begun, sort_tasks, sort_loop, find_min, task_exchange}
use embd_lab.Proc.Check.{InUser, AllValid, task_create_begins}
use embd_lab.Programs.Creating.{IsFresh, mutex_create-IsFresh}
use embd_lab.Programs.Dagger.{
  Fun, fun1, fun2, fun3, fun4, Globals, runs_fun, dagger_tasks, dagger_main,
}

module _ (address : Fun → ℕ) (rest : ℕ → Task) where
  -- The four tasks in the order of their periods.
  sorted_lambda :
      (t : ℕ) → t < 4 → (sort_tasks 4 (dagger_tasks address rest) t).lambda ≡ address (runs_fun t)
  unfolding sort_tasks sort_loop find_min task_exchange dagger_tasks
  sorted_lambda zero h = refl
  sorted_lambda (suc zero) h = refl
  sorted_lambda (suc (suc zero)) h = refl
  sorted_lambda (suc (suc (suc zero))) h = refl
  sorted_lambda (suc (suc (suc (suc t)))) h = absurd (omega arith)

  dagger_tasks-AllValid :
      ((f : Fun) → InUser (address f)) → AllValid 0 4 (dagger_tasks address rest)
  unfolding dagger_tasks
  dagger_tasks-AllValid code zero l h = record {
    stack = omega arith;
    entry = code fun1;
    periodic = omega arith;
  }
  dagger_tasks-AllValid code (suc zero) l h = record {
    stack = omega arith;
    entry = code fun2;
    periodic = omega arith;
  }
  dagger_tasks-AllValid code (suc (suc zero)) l h = record {
    stack = omega arith;
    entry = code fun3;
    periodic = omega arith;
  }
  dagger_tasks-AllValid code (suc (suc (suc zero))) l h = record {
    stack = omega arith;
    entry = code fun4;
    periodic = omega arith;
  }
  dagger_tasks-AllValid code (suc (suc (suc (suc j)))) l h = absurd (omega arith)

  -- Where no mutex has been created, none is locked and no task sleeps, and the program lies in user
  -- memory, `main` of dagger.c creates mutex 0 for `mutex1` and starts the four functions in the order of
  -- their periods, from a state in which mutex 0 is created, none is locked and no task sleeps.
  pub dagger_main-begins :
      (a : Addresses) (ptr : ℕ) {k : Kernel} (g : Globals)
      → IsFresh 0 k
      → InUser ptr
      → ((f : Fun) → InUser (address f))
      → (k₁ : Kernel) × ((dagger_main a ptr address rest k g).0.0
          ≡ begun
              (sort_tasks 4 (dagger_tasks address rest))
              (allocate_tasks a (sort_tasks 4 (dagger_tasks address rest)) 4 (dev_init k₁)))
        × ((dagger_main a ptr address rest k g).1 ≡ pos 0)
        × ((t : ℕ)
            → t < 4
            → (sort_tasks 4 (dagger_tasks address rest) t).lambda ≡ address (runs_fun t))
        × IsCreated k₁ 0
        × IsQuiet k₁
  unfolding dagger_main dagger_tasks
  dagger_main-begins a ptr {k} g fresh inside code =
      let (k₁, made, fresh₁) = mutex_create-IsFresh 0 (omega arith) fresh in
      let begins =
        task_create_begins a ptr (dagger_tasks address rest) 4 k₁ (omega arith) (omega arith) inside
          (dagger_tasks-AllValid code) fresh₁.quiet (omega arith) in
      (
        k₁,
        rw (made, begins.0) refl,
        rw made refl,
        sorted_lambda,
        record { small = omega arith; taken = fresh₁.taken 0 (omega arith) },
        fresh₁.quiet,
      )
