-- ===== src/Programs/MutexChaser/Start.antt =====
-- `main` of tasks/mutex_chaser/mutex_chaser.c.
use embd_lab.Prelude.{
  ℕ, zero, suc, ◌+◌, ◌<◌, ◌≤◌, ◌≡◌, refl, arith, [], ◌∷◌, false, if◌then◌else◌, update,
}
use embd_lab.Kernel.{Task, Kernel, os_num_mutex}
use embd_lab.Device.{dev_init}
use embd_lab.Mutex.{mutex_create_syscall}
use embd_lab.Sched.{Addresses, allocate_tasks}
use embd_lab.Proc.{
  Creation, rejected, crashed, begun, sort_tasks, sort_loop, find_min, task_exchange,
  task_create_syscall,
}
use embd_lab.Proc.Check.{InUser, AllValid, task_create_begins}
use embd_lab.Programs.{
  puts, period_dev0, period_dev1, period_dev2, period_dev3, checked_reply, enomem, is_code,
}
use embd_lab.Programs.Creating.{IsFresh, mutex_create-IsFresh}
use embd_lab.Programs.MutexChaser.{
  Fun, fun1, fun2, fun3, fun4, Globals, prints, name, mutex_num, init_val, yes_str, runs_fun,
}

-- The array `tasks`; what lies behind it is `rest`.
unfoldable pub chaser_tasks : (address : Fun → ℕ) → (rest : ℕ → Task) → ℕ → Task
chaser_tasks address rest zero = record {
  lambda = address fun2;
  arg = name fun2;
  stack_pos = 0xa2000000;
  c = 1;
  t = period_dev0;
}
chaser_tasks address rest (suc zero) = record {
  lambda = address fun3;
  arg = name fun3;
  stack_pos = 0xa1000000;
  c = 1;
  t = period_dev1;
}
chaser_tasks address rest (suc (suc zero)) = record {
  lambda = address fun4;
  arg = name fun4;
  stack_pos = 0xa1500000;
  c = 1;
  t = period_dev2;
}
chaser_tasks address rest (suc (suc (suc zero))) = record {
  lambda = address fun1;
  arg = name fun1;
  stack_pos = 0xa2500000;
  c = 1;
  t = period_dev3;
}
chaser_tasks address rest (suc (suc (suc (suc i)))) = rest i

-- One round of the loop that creates the mutexes.
unfoldable pub create_one : ℕ → Kernel × Globals → Kernel × Globals
unfolding checked_reply
create_one i (k, g) =
    let (k', r) = mutex_create_syscall k in
    let errno = (checked_reply r g.errno).1 in
    let g₁ = record g { errno = errno } in
    let g₂ =
      if is_code errno enomem then prints g₁ (puts "failed to create a mutex!!" ∷ []) else g₁ in
    (k', record g₂ { mutex_val = update g₂.mutex_val i init_val })

-- The loop, with the rounds left and `i`.
unfoldable pub create_all : (rounds i : ℕ) → Kernel × Globals → Kernel × Globals
create_all zero i s = s
create_all (suc rounds) i s = create_all rounds (i + 1) (create_one i s)

-- The stub of `task_create` stores the result in `errno`, if it returns.
unfoldable pub created : Creation → Globals → Creation × Globals
created (rejected r) g = (rejected r, record g { errno = r })
created crashed g = (crashed, g)
created (begun tasks k) g = (begun tasks k, g)

-- `ptr` is where `tasks` stands on the user's stack.
unfoldable pub chaser_main :
    Addresses
    → (ptr : ℕ) → (address : Fun → ℕ) → (rest : ℕ → Task) → Kernel
    → Globals
    → Creation × Globals
chaser_main a ptr address rest k g =
    let (k', g') = create_all mutex_num 0 (k, prints g (puts "TEST STARTING..." ∷ [])) in
    created (task_create_syscall a ptr (chaser_tasks address rest) 4 k')
      (prints g' (puts "Successfully created all the mutexes!!" ∷ puts yes_str ∷ []))

create_one_lem :
    (i : ℕ) {k : Kernel} (g : Globals)
    → i < os_num_mutex
    → IsFresh i k
    → is_code g.errno enomem ≡ false
    → (k' : Kernel) × (create_one i (k, g)
        ≡ (k', record g { mutex_val = update g.mutex_val i init_val }))
      × IsFresh (i + 1) k'
unfolding create_one
create_one_lem i {k} g small f calm =
    let (k', e, f') = mutex_create-IsFresh i small f in (k', rw (e, calm) refl, f')

-- What the loop leaves when it has been at mutex `i`.
record Created (i : ℕ) (g : Globals) (s : Kernel × Globals) : Type 0 where
  fresh : IsFresh os_num_mutex s.0
  values : (j : ℕ) → i ≤ j → j < os_num_mutex → s.1.mutex_val j ≡ init_val
  others : (j : ℕ) → j < i → s.1.mutex_val j ≡ g.mutex_val j

create_all-Created :
    (rounds i : ℕ) {k : Kernel} (g : Globals)
    → i + rounds ≡ os_num_mutex
    → IsFresh i k
    → is_code g.errno enomem ≡ false
    → Created i g (create_all rounds i (k, g))
unfolding create_all
create_all-Created zero i {k} g e f calm =
    let all : i ≡ os_num_mutex = omega arith in
    record { fresh = rw all at f; values = λ j l h. absurd (omega arith); others = λ j h. refl }
create_all-Created (suc rounds) i {k} g e f calm =
    let (k', one, f') = create_one_lem i g (omega arith) f calm in
    let g' = record g { mutex_val = update g.mutex_val i init_val } in
    let rest = create_all-Created rounds (i + 1) g' (omega arith) f' calm in
    rw one (record {
      fresh = rest.fresh;
      values = λ j l h. ground (arith, rest.values j, rest.others j);
      others = λ j h. ground (arith, rest.others j);
    })

module _ (address : Fun → ℕ) (rest : ℕ → Task) where
  -- The four tasks in the order of their periods.
  sorted_lambda :
      (t : ℕ) → t < 4 → (sort_tasks 4 (chaser_tasks address rest) t).lambda ≡ address (runs_fun t)
  unfolding sort_tasks sort_loop find_min task_exchange chaser_tasks
  sorted_lambda zero h = refl
  sorted_lambda (suc zero) h = refl
  sorted_lambda (suc (suc zero)) h = refl
  sorted_lambda (suc (suc (suc zero))) h = refl
  sorted_lambda (suc (suc (suc (suc t)))) h = absurd (omega arith)

  chaser_tasks-AllValid :
      ((f : Fun) → InUser (address f)) → AllValid 0 4 (chaser_tasks address rest)
  unfolding chaser_tasks
  chaser_tasks-AllValid code zero l h = record {
    stack = omega arith;
    entry = code fun2;
    periodic = omega arith;
  }
  chaser_tasks-AllValid code (suc zero) l h = record {
    stack = omega arith;
    entry = code fun3;
    periodic = omega arith;
  }
  chaser_tasks-AllValid code (suc (suc zero)) l h = record {
    stack = omega arith;
    entry = code fun4;
    periodic = omega arith;
  }
  chaser_tasks-AllValid code (suc (suc (suc zero))) l h = record {
    stack = omega arith;
    entry = code fun1;
    periodic = omega arith;
  }
  chaser_tasks-AllValid code (suc (suc (suc (suc j)))) l h = absurd (omega arith)

  module _ (a : Addresses) (ptr : ℕ) {k : Kernel} (g : Globals) (fresh : IsFresh 0 k)
      (inside : InUser ptr) (code : (f : Fun) → InUser (address f))
      (no_error : is_code g.errno enomem ≡ false) where
    abbrev pub made : Kernel × Globals
    made = create_all mutex_num 0 (k, prints g (puts "TEST STARTING..." ∷ []))

    abbrev pub in_order : ℕ → Task
    in_order = sort_tasks 4 (chaser_tasks address rest)

    -- Where no mutex has been created, none is locked and no task sleeps, the program lies in user
    -- memory and `errno` is not ENOMEM, `main` of mutex_chaser.c starts `fun1` to `fun4` as the tasks 0
    -- to 3, in the order of their periods, with all 32 mutexes created and every number 2.
    pub chaser_main-begins :
        ((chaser_main a ptr address rest k g).0
          ≡ begun in_order (allocate_tasks a in_order 4 (dev_init made.0)))
        × ((t : ℕ) → t < 4 → (in_order t).lambda ≡ address (runs_fun t))
        × IsFresh os_num_mutex made.0
        × ((j : ℕ)
            → j < os_num_mutex
            → (chaser_main a ptr address rest k g).1.mutex_val j ≡ init_val)
    unfolding chaser_main created chaser_tasks
    chaser_main-begins =
        let made_all =
          create_all-Created mutex_num 0 (prints g (puts "TEST STARTING..." ∷ [])) refl fresh
            no_error in
        let begins =
          task_create_begins a ptr (chaser_tasks address rest) 4 made.0 (omega arith) (omega arith)
            inside (chaser_tasks-AllValid code) made_all.fresh.quiet (omega arith) in
        (
          rw begins.0 refl,
          sorted_lambda,
          made_all.fresh,
          λ j h. rw begins.0 (made_all.values j (omega arith) h),
        )
