-- ===== src/Programs/Cyclone/Ends.antt =====
-- The test of cyclone.c ends.
use mathlib.Core.List.{append_assoc, map}
use embd_lab.Prelude.{
  ℕ, zero, suc, ◌+◌, ◌*◌, ◌^◌, ◌<◌, ◌≤◌, ◌≡◌, refl, ◌∙◌, ap, Bool, true, List, [], ◌∷◌, ◌++◌, arith,
  ltb, leb, ◌&&◌, length,
}
use embd_lab.Kernel.{Task}
use embd_lab.Sched.{Addresses}
use embd_lab.Sched.Start.{IsQuiet}
use embd_lab.Proc.Check.{InUser}
use embd_lab.Programs.{puts}
use embd_lab.Programs.Cyclone.{
  ite, Session, Timing, prints, loops, starts, created, fun1, laps, cyclone_main,
}
use embd_lab.Programs.Cyclone.Laps.{OnTime, line, lap, starts_again, started_kernel}

-- From `previous` on, the times are at least `ct`, `ct + 1` and so on apart.
abbrev pub spaced : (previous ct : ℕ) → List ℕ → Bool
spaced previous ct [] = true
spaced previous ct (time ∷ times) = leb (previous + ct) time && spaced time (suc ct) times

module _ (reads most : ℕ) (timing : Timing) (on_time : OnTime reads most timing) (a : Addresses)
    (ptr address : ℕ) (rest : ℕ → Task) (inside : InUser ptr) (code : InUser address) where
  laps-loops :
      (n : ℕ) (s : Session) (previous : ℕ)
      → s.ct + n ≡ 30
      → IsQuiet s.kernel
      → 10 * (s.kernel.system_time + 3 * (n * most) + 31) < 2 ^ 32
      → previous ≤ s.kernel.system_time
      → (times : List ℕ) × (s' : Session) × (laps reads timing a ptr address rest (suc n) (starts s)
          ≡ loops s')
        × (length times ≡ n)
        × (spaced previous (suc s.ct) times ≡ true)
        × (s'.console ≡ s.console ++ (map line times ++ puts "Test ends!!" ∷ []))
  unfolding laps fun1
  laps-loops zero s previous all quiet fits before =
      let over : ltb ite (s.ct + 1) ≡ true = ground arith in
      (
        [],
        prints (record s { ct = s.ct + 1 }) (puts "Test ends!!" ∷ []),
        rw over refl,
        refl,
        refl,
        refl,
      )
  laps-loops (suc n) s previous all quiet fits before =
      let (time, k, went, quiet₁, slept, printed, late) =
        lap reads most timing on_time a ptr address rest inside code s quiet (omega arith)
          (omega arith) in
      let s₁ : Session = record s {
        kernel = k;
        ct = s.ct + 1;
        console = s.console ++ line time ∷ [];
      } in
      let (times, s', end, length_times, apart, console) =
        laps-loops n s₁ time (omega arith) quiet₁ (omega (arith, late)) printed in
      let next : s.ct + 1 ≡ suc s.ct = omega arith in
      let apart_suc : spaced time (suc (suc s.ct)) times ≡ true = rw next at apart in
      (
        time ∷ times,
        s',
        ap (laps reads timing a ptr address rest (suc n)) went ∙ end,
        ap suc length_times,
        ground (arith, apart_suc, slept),
        console
            ∙ append_assoc s.console (line time ∷ []) (map line times ++ puts "Test ends!!" ∷ []),
      )

  -- Where no task sleeps and no mutex is locked, the program lies in user memory, a bounded number
  -- of interrupts comes between two calls, as many come during each sleep as it asks for, and the
  -- clock stays far from its end, `main` starts the task, which starts itself anew 30 times and
  -- then reaches its endless loop. It has printed 30 times: the first is at least 1 tick after the
  -- start, the second at least 2 ticks after the first, and so on.
  pub test_ends :
      (s : Session)
      → IsQuiet s.kernel
      → 10 * (s.kernel.system_time + 3 * (30 * most) + 31) < 2 ^ 32
      → (times : List ℕ) × (s' : Session) × (laps reads timing a ptr address rest 31
            (cyclone_main reads timing a ptr address rest s)
          ≡ loops s')
        × (length times ≡ 30)
        × (spaced s.kernel.system_time 1 times ≡ true)
        × (s'.console
            ≡ s.console ++ (puts "Test begin" ∷ (map line times ++ puts "Test ends!!" ∷ [])))
  unfolding cyclone_main
  test_ends s quiet fits =
      let (begins, quiet₁, time₁) =
        starts_again reads most timing on_time a ptr address rest inside code quiet in
      let s₁ : Session = record s {
        kernel = started_kernel reads most timing on_time a ptr address rest inside code s.kernel;
        ct = 0;
        console = s.console ++ puts "Test begin" ∷ [];
      } in
      let (times, s', end, length_times, apart, console) =
        laps-loops 30 s₁ s.kernel.system_time refl quiet₁ (omega (arith, time₁))
          (omega (arith, time₁)) in
      (
        times,
        s',
        ap
              (λ c. laps reads timing a ptr address rest 31 (
                created (puts "WTF!\n" ∷ []) c
                  (prints (record s { ct = 0 }) (puts "Test begin" ∷ []))))
              begins
            ∙ end,
        length_times,
        apart,
        console
            ∙ append_assoc s.console (puts "Test begin" ∷ [])
                (map line times ++ puts "Test ends!!" ∷ []),
      )
