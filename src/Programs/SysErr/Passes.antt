-- ===== src/Programs/SysErr/Passes.antt =====
-- All checks of sys_err.c pass.
use mathlib.Core.List.{append_assoc}
use embd_lab.Prelude.{
  ℕ, zero, suc, ◌+◌, ◌<◌, ◌≤◌, ◌≡◌, refl, ℤ, pos, negsuc, Option, none, some, List, [], ◌∷◌, ◌++◌,
  arith, update, ap,
}
use embd_lab.Kernel.{Kernel, os_num_mutex}
use embd_lab.Dispatch.{enable_interrupts}
use embd_lab.Syscall.{einval, eperm, edeadlock}
use embd_lab.Proc.{event_wait_syscall}
use embd_lab.Programs.{Print, puts, enomem}
use embd_lab.Programs.SysErr.{
  Session, get_errno, output, mutex_lock, mutex_unlock, event_wait, mutex_create, report_suc,
  check_lines, create_all, checks, fun1,
}
use embd_lab.Programs.SysErr.Steady.{
  Steady, create-Steady, full-create, enable-Steady, lock_big, unlock_big, lock-Steady, relock,
  unlock_others, unlock-Steady, ticks-Steady,
}

-- The lines of `fun1` when every check passes.
abbrev pub passed : List Print
passed =
    report_suc "3. Mutex Create returns ENOMEM"
    ++ report_suc "4. Mutex Unlock return EINVAL"
    ++ report_suc "5. Mutex Unlock return EPERM"
    ++ report_suc "6. Mutex Lock return EINVAL"
    ++ report_suc "7. Mutex Lock return success"
    ++ report_suc "8. Mutex Lock return EDEADLOCK"
    ++ report_suc "9. Mutex Unlock return success"
    ++ report_suc "10. Event Wait return EINVAL"
    ++ puts "TEST END!\n" ∷ []

-- The lines as they are printed.
joined :
    (c : List Print)
    → ((((((((c ++ report_suc "3. Mutex Create returns ENOMEM")
                      ++ report_suc "4. Mutex Unlock return EINVAL")
                    ++ report_suc "5. Mutex Unlock return EPERM")
                  ++ report_suc "6. Mutex Lock return EINVAL")
                ++ report_suc "7. Mutex Lock return success")
              ++ report_suc "8. Mutex Lock return EDEADLOCK")
            ++ report_suc "9. Mutex Unlock return success")
          ++ report_suc "10. Event Wait return EINVAL")
        ++ (puts "TEST END!\n" ∷ [])
      ≡ c ++ passed
joined c = simp (append_assoc)

abbrev pub nobody_holds : ℕ → Option ℕ
nobody_holds _ = none

module _ (interrupts : ℕ → ℕ) where
  module _ {n : ℕ} {held : ℕ → Option ℕ} (s : Session) (steady : Steady n held s.kernel) where
    -- After a call that returned `r` with the kernel `k`.
    abbrev after : Kernel → ℤ → Session
    after k r = record s { kernel = k; errno = r; calls = s.calls + 1 }

    create-passes :
        n < os_num_mutex
        → (k : Kernel) × (mutex_create interrupts s
            ≡ some (pos n, record s { kernel = k; calls = s.calls + 1 }))
          × Steady (n + 1) held k
    unfolding mutex_create
    create-passes small =
        let (k₁, e₁, s₁) = ticks-Steady (interrupts s.calls) steady in
        let (k₂, e₂, s₂) = create-Steady s₁ small in (k₂, rw e₁ (rw e₂ refl), s₂)

    full-passes :
        n ≡ os_num_mutex
        → (k : Kernel) × (mutex_create interrupts s ≡ some (negsuc 0, after k enomem))
          × Steady n held k
    unfolding mutex_create
    full-passes all =
        let (k₁, e₁, s₁) = ticks-Steady (interrupts s.calls) steady in
        (k₁, rw e₁ (rw (full-create s₁ all) refl), s₁)

    lock_big-passes :
        (m : ℕ)
        → os_num_mutex ≤ m
        → (k : Kernel) × (mutex_lock interrupts (pos m) s ≡ some (einval, after k einval))
          × Steady n held k
    unfolding mutex_lock
    lock_big-passes m big =
        let (k₁, e₁, s₁) = ticks-Steady (interrupts s.calls) steady in
        (enable_interrupts k₁, rw e₁ (rw (lock_big s₁ m big) refl), enable-Steady s₁)

    unlock_big-passes :
        (m : ℕ)
        → os_num_mutex ≤ m
        → (k : Kernel) × (mutex_unlock interrupts (pos m) s ≡ some (einval, after k einval))
          × Steady n held k
    unfolding mutex_unlock
    unlock_big-passes m big =
        let (k₁, e₁, s₁) = ticks-Steady (interrupts s.calls) steady in
        (enable_interrupts k₁, rw e₁ (rw (unlock_big s₁ m big) refl), enable-Steady s₁)

    wait-passes :
        (k : Kernel) × (event_wait interrupts 10000 s ≡ some (einval, after k einval))
        × Steady n held k
    unfolding event_wait event_wait_syscall
    wait-passes =
        let (k₁, e₁, s₁) = ticks-Steady (interrupts s.calls) steady in (k₁, rw e₁ refl, s₁)

    module _ (m : ℕ) (created : m < n) (small : m < os_num_mutex) where
      lock-passes :
          held m ≡ none
          → (k : Kernel) × (mutex_lock interrupts (pos m) s ≡ some (pos 0, after k (pos 0)))
            × Steady n (update held m (some 0)) k
      unfolding mutex_lock
      lock-passes free =
          let (k₁, e₁, s₁) = ticks-Steady (interrupts s.calls) steady in
          let (k₂, e₂, s₂) = lock-Steady s₁ m created small free in (k₂, rw e₁ (rw e₂ refl), s₂)

      relock-passes :
          held m ≡ some 0
          → (k : Kernel) × (mutex_lock interrupts (pos m) s ≡ some (edeadlock, after k edeadlock))
            × Steady n held k
      unfolding mutex_lock
      relock-passes mine =
          let (k₁, e₁, s₁) = ticks-Steady (interrupts s.calls) steady in
          (enable_interrupts k₁, rw e₁ (rw (relock s₁ m created small mine) refl), enable-Steady s₁)

      unlock_others-passes :
          held m ≡ none
          → (k : Kernel) × (mutex_unlock interrupts (pos m) s ≡ some (eperm, after k eperm))
            × Steady n held k
      unfolding mutex_unlock
      unlock_others-passes free =
          let (k₁, e₁, s₁) = ticks-Steady (interrupts s.calls) steady in
          (
            enable_interrupts k₁,
            rw e₁ (rw (unlock_others s₁ m created small free) refl),
            enable-Steady s₁,
          )

      unlock-passes :
          held m ≡ some 0
          → (k : Kernel) × (mutex_unlock interrupts (pos m) s ≡ some (pos 0, after k (pos 0)))
            × Steady n (update held m none) k
      unfolding mutex_unlock
      unlock-passes mine =
          let (k₁, e₁, s₁) = ticks-Steady (interrupts s.calls) steady in
          let (k₂, e₂, s₂) = unlock-Steady s₁ m created small mine in (k₂, rw e₁ (rw e₂ refl), s₂)

  create_all-passes :
      (rounds n : ℕ) {held : ℕ → Option ℕ} (s : Session)
      → n + rounds ≡ os_num_mutex
      → Steady n held s.kernel
      → (k : Kernel) × (calls : ℕ) × (create_all interrupts rounds s
          ≡ some (tt, record s { kernel = k; calls = calls }))
        × Steady os_num_mutex held k
  unfolding create_all
  create_all-passes zero n s e steady =
      let all : n ≡ os_num_mutex = omega arith in (s.kernel, s.calls, refl, rw all at steady)
  create_all-passes (suc rounds) n s e steady =
      let (k₁, e₁, s₁) = create-passes s steady (omega arith) in
      let (k₂, calls, e₂, s₂) =
        create_all-passes rounds (n + 1) (record s { kernel = k₁; calls = s.calls + 1 })
          (omega arith) s₁ in
      (k₂, calls, rw e₁ e₂, s₂)

  -- After a call whose check has printed `lines`.
  abbrev told : Session → Kernel → ℤ → List Print → Session
  told s k r lines = record {
    kernel = k;
    errno = r;
    console = s.console ++ lines;
    calls = s.calls + 1;
  }

  abbrev ended : Session → Kernel → ℕ → List Print → Option (Unit {0} × Session)
  ended s k calls lines =
      some (tt, record s { kernel = k; errno = einval; console = lines; calls = calls })

  -- Where its task is the only one and no mutex has been created, `fun1` of sys_err.c gets to its end,
  -- however many timer interrupts come before each of its calls, and reports success for all eight
  -- checks.
  pub fun1-passes :
      (s : Session)
      → Steady 0 nobody_holds s.kernel
      → (k : Kernel) × (calls : ℕ) × (fun1 interrupts s
          ≡ some (
            tt,
            record s { kernel = k; errno = einval; console = s.console ++ passed; calls = calls },
          ))
  unfolding fun1 checks get_errno output check_lines
  fun1-passes s steady =
      let (k₀, calls, e₀, s₀) = create_all-passes 32 0 s refl steady in
      let t₀ : Session = record s { kernel = k₀; calls = calls } in
      let (k₁, e₁, s₁) = full-passes t₀ s₀ refl in
      let t₁ = told t₀ k₁ enomem (report_suc "3. Mutex Create returns ENOMEM") in
      let (k₂, e₂, s₂) = unlock_big-passes t₁ s₁ 165 (omega arith) in
      let t₂ = told t₁ k₂ einval (report_suc "4. Mutex Unlock return EINVAL") in
      let (k₃, e₃, s₃) = unlock_others-passes t₂ s₂ 23 (omega arith) (omega arith) refl in
      let t₃ = told t₂ k₃ eperm (report_suc "5. Mutex Unlock return EPERM") in
      let (k₄, e₄, s₄) = lock_big-passes t₃ s₃ 124 (omega arith) in
      let t₄ = told t₃ k₄ einval (report_suc "6. Mutex Lock return EINVAL") in
      let (k₅, e₅, s₅) = lock-passes t₄ s₄ 4 (omega arith) (omega arith) refl in
      let t₅ = told t₄ k₅ (pos 0) (report_suc "7. Mutex Lock return success") in
      let (k₆, e₆, s₆) = relock-passes t₅ s₅ 4 (omega arith) (omega arith) refl in
      let t₆ = told t₅ k₆ edeadlock (report_suc "8. Mutex Lock return EDEADLOCK") in
      let (k₇, e₇, s₇) = unlock-passes t₆ s₆ 4 (omega arith) (omega arith) refl in
      let t₇ = told t₆ k₇ (pos 0) (report_suc "9. Mutex Unlock return success") in
      let (k₈, e₈, s₈) = wait-passes t₇ s₇ in
      let finish = ap (ended s k₈ (t₇.calls + 1)) (joined s.console) in
      (
        k₈,
        t₇.calls + 1,
        rw e₀ (rw e₁ (rw e₂ (rw e₃ (rw e₄ (rw e₅ (rw e₆ (rw e₇ (rw e₈ finish)))))))),
      )
