-- ===== src/Programs/SysErr/Steady.antt =====
-- The calls of sys_err.c, one by one, where its task is the only one.
use embd_lab.Prelude.{
  ℕ, zero, suc, ◌+◌, ◌<◌, ◌≤◌, ◌≡◌, refl, ℤ, pos, Option, none, some, List, [], arith, leb, inl,
  inr, update, ap, ◌∙◌,
}
use embd_lab.Kernel.{Kernel, os_num_mutex}
use embd_lab.Dispatch.{enable_interrupts, disable_interrupts}
use embd_lab.Syscall.{returned, einval, eperm, edeadlock, minus_enomem}
use embd_lab.Mutex.Create.{mutex_create_lem, hand_out}
use embd_lab.Mutex.{
  mutex_create_syscall, mutex_lock_syscall, mutex_unlock_syscall, block_on, take_mutex, release,
}
use embd_lab.Irq.{c_irq_handler, ticks}
use embd_lab.Irq.Period.{c_irq_handler_lem}
use embd_lab.Waiting.{Home, ready}
use embd_lab.WellFormed.{IsWellFormed}
use embd_lab.WellFormed.Create.{hand_out-IsWellFormed}
use embd_lab.WellFormed.Lock.{IsCreated, mutex_lock-takes, mutex_lock_einval, mutex_lock_edeadlock}
use embd_lab.WellFormed.Unlock.{mutex_unlock-frees, mutex_unlock_einval, mutex_unlock_eperm}

-- Task 0 runs, the mutexes below `n` have been created, and `held` gives the holders.
pub record Steady (n : ℕ) (held : ℕ → Option ℕ) (k : Kernel) : Type 0 where
  pub waiting : ℕ → List ℕ
  pub home : ℕ → Home
  pub wf : IsWellFormed k waiting home
  pub runs : k.cur_tcb ≡ 0
  pub is_ready : home 0 ≡ ready
  pub nobody : (m : ℕ) → m < os_num_mutex → waiting m ≡ []
  pub available : (j : ℕ) → j < os_num_mutex → (k.gt_mutex j).b_available ≡ leb n j
  pub holder : (j : ℕ) → (k.gt_mutex j).p_holding_tcb ≡ held j

-- A call that returns leaves the same task running.
lock-stays :
    (m : ℕ) (k k' : Kernel) (r : ℤ)
    → mutex_lock_syscall (pos m) k ≡ returned k' r
    → k'.cur_tcb ≡ k.cur_tcb
unfolding mutex_lock_syscall block_on enable_interrupts disable_interrupts take_mutex
lock-stays m k k' r e = ground arith

unlock-stays :
    (m : ℕ) (k k' : Kernel) (r : ℤ)
    → mutex_unlock_syscall (pos m) k ≡ returned k' r
    → k'.cur_tcb ≡ k.cur_tcb
unfolding mutex_unlock_syscall release enable_interrupts disable_interrupts
unlock-stays m k k' r e = ground arith

module _ {n : ℕ} {held : ℕ → Option ℕ} {k : Kernel} (s : Steady n held k) where
  open s use {waiting, home, wf, runs, is_ready, nobody, available, holder}

  -- The timer interrupt leaves task 0 running: no task has a lower number.
  interrupt-Steady : (k' : Kernel) × (c_irq_handler k ≡ some k') × Steady n held k'
  interrupt-Steady =
      let (k', e, u) = c_irq_handler_lem wf in
      (
        k',
        e,
        record {
          waiting = _;
          home = _;
          wf = u.wf;
          runs = elim u.who_runs [
            | inl first ↦ ground (arith, first.none_before 0, is_ready)
            | inr same ↦ same.0 ∙ runs
          ];
          is_ready = ground (arith, is_ready);
          nobody = λ m h. ground (arith, nobody m);
          available = λ j h. rw (u.same_mutex) (available j h);
          holder = λ j. rw (u.same_mutex) (holder j);
        },
      )

  pub create-Steady :
      n < os_num_mutex
      → (k' : Kernel) × (mutex_create_syscall k ≡ (k', pos n)) × Steady (n + 1) held k'
  unfolding hand_out
  create-Steady small = elim (mutex_create_lem k) [
    | inl (all, e) ↦ absurd (ground (arith, all n, available n))
    | inr (j, first, e) ↦
        let same : j ≡ n =
          ground (
            arith,
            first.within,
            first.available,
            first.taken_before n,
            available j,
            available n,
          ) in
        (
          hand_out j k,
          e ∙ ap (λ (x : ℕ). (hand_out j k, pos x)) same,
          record {
            waiting = waiting;
            home = home;
            wf = hand_out-IsWellFormed j wf first;
            runs = runs;
            is_ready = is_ready;
            nobody = nobody;
            available = λ i h. ground (arith, available i);
            holder = λ i. ground (arith, holder i);
          },
        )
  ]

  pub full-create : n ≡ os_num_mutex → mutex_create_syscall k ≡ (k, minus_enomem)
  full-create all = elim (mutex_create_lem k) [
    | inl (taken, e) ↦ e
    | inr (j, first, e) ↦ absurd (ground (arith, first.within, first.available, available j))
  ]

  pub enable-Steady : Steady n held (enable_interrupts k)
  unfolding enable_interrupts
  enable-Steady = record {
    waiting = waiting;
    home = home;
    wf = record {
      sound = record {
        placed = wf.sound.placed;
        owned = wf.sound.owned;
        idle_ready = wf.sound.idle_ready;
      };
      running = record { small = wf.running.small; is_ready = wf.running.is_ready };
    };
    runs = runs;
    is_ready = is_ready;
    nobody = nobody;
    available = available;
    holder = holder;
  }

  pub lock_big :
      (m : ℕ)
      → os_num_mutex ≤ m
      → mutex_lock_syscall (pos m) k ≡ returned (enable_interrupts k) einval
  lock_big m big = mutex_lock_einval wf m (inl big)

  pub unlock_big :
      (m : ℕ)
      → os_num_mutex ≤ m
      → mutex_unlock_syscall (pos m) k ≡ returned (enable_interrupts k) einval
  unlock_big m big = mutex_unlock_einval wf m (inl big)

  module _ (m : ℕ) (created : m < n) (small : m < os_num_mutex) where
    is_created : IsCreated k m
    is_created = record { small = small; taken = ground (arith, available m) }

    pub lock-Steady :
        held m ≡ none
        → (k' : Kernel) × (mutex_lock_syscall (pos m) k ≡ returned k' (pos 0))
          × Steady n (update held m (some 0)) k'
    lock-Steady free =
        let (k', e, holders, wf') =
          mutex_lock-takes wf m is_created (ground (arith, wf.sound.owned.locked m, holder m)) in
        (
          k',
          e,
          record {
            waiting = waiting;
            home = home;
            wf = wf';
            runs = lock-stays m k k' (pos 0) e ∙ runs;
            is_ready = is_ready;
            nobody = nobody;
            available = λ j h. (holders j).1 ∙ available j h;
            holder = λ j. ground (arith, (holders j).0, holder j, runs);
          },
        )

    pub relock :
        held m ≡ some 0 → mutex_lock_syscall (pos m) k ≡ returned (enable_interrupts k) edeadlock
    relock mine = mutex_lock_edeadlock wf m is_created (ground (arith, holder m, runs))

    pub unlock_others :
        held m ≡ none → mutex_unlock_syscall (pos m) k ≡ returned (enable_interrupts k) eperm
    unlock_others free = mutex_unlock_eperm wf m is_created (ground (arith, holder m))

    pub unlock-Steady :
        held m ≡ some 0
        → (k' : Kernel) × (mutex_unlock_syscall (pos m) k ≡ returned k' (pos 0))
          × Steady n (update held m none) k'
    unlock-Steady mine =
        let (k', e, unlocked, holders, wf') =
          mutex_unlock-frees wf m is_created (ground (arith, holder m, runs)) (nobody m small) in
        (
          k',
          e,
          record {
            waiting = waiting;
            home = home;
            wf = wf';
            runs = unlock-stays m k k' (pos 0) e ∙ runs;
            is_ready = is_ready;
            nobody = nobody;
            available = λ j h. (holders j).1 ∙ available j h;
            holder = λ j. ground (arith, (holders j).0, holder j);
          },
        )

-- Interrupts leave task 0 running.
pub ticks-Steady :
    (i : ℕ) {n : ℕ} {held : ℕ → Option ℕ} {k : Kernel}
    → Steady n held k
    → (k' : Kernel) × (ticks i k ≡ some k') × Steady n held k'
unfolding ticks
ticks-Steady zero s = (_, refl, s)
ticks-Steady (suc i) s =
    let (k₁, once, s₁) = interrupt-Steady s in
    let (k', more, s') = ticks-Steady i s₁ in (k', rw (once, ticks) more, s')
