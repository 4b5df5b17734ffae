-- ===== src/Programs/Cyclone/Laps.antt =====
-- One lap of cyclone.c: its task sleeps as long as it asks for, and starts again.
use embd_lab.Prelude.{
  ℕ, zero, suc, ◌+◌, ◌*◌, ◌^◌, ◌<◌, ◌≤◌, ◌≡◌, refl, ◌∙◌, ap, false, some, [], ◌∷◌, ◌++◌, arith, ltb,
}
use embd_lab.Kernel.{Task, Kernel}
use embd_lab.Irq.{ticks}
use embd_lab.Irq.Quiet.{ticks-IsQuiet}
use embd_lab.Device.{dev_init}
use embd_lab.Time.{time_syscall}
use embd_lab.Time.Sleep.{sleep_syscall_lem}
use embd_lab.Sched.{Addresses}
use embd_lab.Sched.Start.{IsQuiet, allocate_tasks-IsQuiet, allocate_tasks_time}
use embd_lab.Proc.{begun, sort_tasks, task_create_syscall}
use embd_lab.Proc.Check.{InUser, AllValid, first_kernel, task_create_begins, IsQuiet-dev_init}
use embd_lab.Programs.{Print, puts, printf}
use embd_lab.Programs.Cyclone.{
  ite, Session, Timing, prints, cyclone_tasks, Ended, starts, time_of, created, interrupted,
  creates, prints_time, fun1,
}

-- Between two calls come at most `most` interrupts, and the clock goes on while the task sleeps: one of
-- the first `reads` reads comes at least `ct` interrupts after the start of the sleep.
pub record OnTime (reads most : ℕ) (timing : Timing) : Type 0 where
  pub few_asleep : (ct read : ℕ) → timing.arrived ct read ≤ most
  pub few_before : (ct : ℕ) → timing.before_time ct ≤ most
  pub few_after : (ct : ℕ) → timing.after_time ct ≤ most
  pub last : (ct : ℕ) → ℕ
  pub later : (ct : ℕ) → 0 < last ct
  pub in_reads : (ct : ℕ) → last ct ≤ reads
  pub wakes : (ct : ℕ) → ct ≤ ite → timing.arrived ct 0 + ct ≤ timing.arrived ct (last ct)

-- The line that `fun1` prints at `time`.
abbrev pub line : (time : ℕ) → Print
line time = printf "Time now is %lu\n" (time ∷ [])

module _ (reads most : ℕ) (timing : Timing) (on_time : OnTime reads most timing) (a : Addresses)
    (ptr address : ℕ) (rest : ℕ → Task) (inside : InUser ptr) (code : InUser address) where
  tasks-AllValid : AllValid 0 1 (cyclone_tasks address rest)
  unfolding cyclone_tasks
  tasks-AllValid zero l h = record { stack = omega arith; entry = code; periodic = omega arith }
  tasks-AllValid (suc j) l h = absurd (omega arith)

  abbrev pub started_kernel : Kernel → Kernel
  started_kernel k = first_kernel a ptr (cyclone_tasks address rest) 1 k

  pub starts_again :
      {k : Kernel}
      → IsQuiet k
      → (task_create_syscall a ptr (cyclone_tasks address rest) 1 k
          ≡ begun (sort_tasks 1 (cyclone_tasks address rest)) (started_kernel k))
        × IsQuiet (started_kernel k)
        × ((started_kernel k).system_time ≡ k.system_time)
  unfolding cyclone_tasks dev_init
  starts_again {k} quiet = (
    (task_create_begins a ptr (cyclone_tasks address rest) 1 k (omega arith) (omega arith) inside
        tasks-AllValid quiet (omega arith)).0,
    allocate_tasks-IsQuiet a (sort_tasks 1 (cyclone_tasks address rest)) 1 (IsQuiet-dev_init quiet)
        (omega arith),
    allocate_tasks_time a (sort_tasks 1 (cyclone_tasks address rest)) 1 (dev_init k),
  )

  interrupted-goes :
      (n : ℕ) (s : Session) (next : Session → Ended) {k : Kernel}
      → ticks n s.kernel ≡ some k
      → interrupted n s next ≡ next (record s { kernel = k })
  interrupted-goes n s next e = rw (interrupted, e) refl

  -- From the call of `time` on.
  prints_time-starts :
      (s : Session)
      → IsQuiet s.kernel
      → s.kernel.system_time + most < 2 ^ 32
      → (k : Kernel) × (prints_time reads timing a ptr address rest s
          ≡ starts (record (prints s (line s.kernel.system_time ∷ [])) { kernel = k }))
        × IsQuiet k
        × (s.kernel.system_time ≤ k.system_time)
        × (k.system_time ≤ s.kernel.system_time + most)
  unfolding time_syscall
  prints_time-starts s quiet fits =
      let few = on_time.few_after s.ct in
      let (k₁, ticked, quiet₁, time₁) =
        ticks-IsQuiet (timing.after_time s.ct) quiet (omega (arith, few)) in
      let (begins, quiet₂, time₂) = starts_again quiet₁ in
      (
        started_kernel k₁,
        interrupted-goes (timing.after_time s.ct) (prints s (line s.kernel.system_time ∷ []))
              (creates reads timing a ptr address rest) ticked
            ∙ ap
                (λ c.
                  created (puts "TASK SHOULD NEVER REACH HERE, FAIL XXXXXXXXXXXXXXXXX" ∷ []) c
                    (record (prints s (line s.kernel.system_time ∷ [])) { kernel = k₁ }))
                begins,
        quiet₂,
        omega (arith, time₁, time₂),
        omega (arith, time₁, time₂, few),
      )

  -- The clock, read at any time.
  clock-adds :
      (n : ℕ) {k : Kernel}
      → IsQuiet k
      → k.system_time + n < 2 ^ 32
      → time_of (ticks n k) ≡ k.system_time + n
  unfolding time_syscall
  clock-adds n quiet fits = let (k', ticked, _, time) = ticks-IsQuiet n quiet fits in rw ticked time

  -- One run of `fun1` that sleeps.
  pub lap :
      (s : Session)
      → IsQuiet s.kernel
      → s.ct < 30
      → 10 * (s.kernel.system_time + 3 * most + 31) < 2 ^ 32
      → (time : ℕ) × (k : Kernel) × (fun1 reads timing a ptr address rest s
          ≡ starts (record s { kernel = k; ct = s.ct + 1; console = s.console ++ line time ∷ [] }))
        × IsQuiet k
        × (s.kernel.system_time + suc s.ct ≤ time)
        × (time ≤ k.system_time)
        × (k.system_time ≤ s.kernel.system_time + 3 * most)
  unfolding fun1
  lap s quiet more fits =
      let ct : ℕ = s.ct + 1 in
      let clock : ℕ → ℕ = λ i. time_of (ticks (timing.arrived ct i) s.kernel) in
      let reads_clock : (i : ℕ) → clock i ≡ s.kernel.system_time + timing.arrived ct i =
        λ i. clock-adds (timing.arrived ct i) quiet (omega (arith, on_time.few_asleep ct i)) in
      let few = on_time.few_asleep ct in
      let last = on_time.last ct in
      let (i, woke, first) =
        sleep_syscall_lem reads (ct * 10) last clock (omega arith)
          (omega (arith, reads_clock 0, few 0))
          (omega (arith, reads_clock 0, reads_clock last, on_time.wakes ct (omega arith)))
          (on_time.later ct) (on_time.in_reads ct) in
      let passed = timing.arrived ct i + timing.before_time ct in
      let (k₁, ticked, quiet₁, time₁) =
        ticks-IsQuiet passed quiet (omega (arith, few i, on_time.few_before ct)) in
      let (k₂, started, quiet₂, not_before, not_late) =
        prints_time-starts (record s { kernel = k₁; ct = ct }) quiet₁
          (omega (arith, time₁, few i, on_time.few_before ct)) in
      let going : ltb ite ct ≡ false = ground arith in
      (
        k₁.system_time,
        k₂,
        rw (going, woke)
            (interrupted-goes passed (record s { ct = ct })
                (prints_time reads timing a ptr address rest) ticked
              ∙ started),
        quiet₂,
        omega (arith, time₁, first.reached, reads_clock 0, reads_clock i),
        not_before,
        omega (arith, time₁, not_late, few i, on_time.few_before ct),
      )
