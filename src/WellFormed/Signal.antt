-- ===== src/WellFormed/Signal.antt =====
-- `dev_update`: every device whose time has come wakes all its tasks.
use embd_lab.Prelude.{
  ℕ, zero, suc, ◌+◌, ◌-◌, ◌%◌, ◌^◌, ◌<◌, ◌≤◌, ◌≡◌, ◌⊎◌, inl, inr, refl, ◌∙◌, Bool, true, false,
  ◌&&◌, some, List, [], ◌∷◌, arith, ◌==◌, ltb, leb, if◌then◌else◌, Bool-cases, length, update,
}
use embd_lab.Kernel.{Kernel, num_devices, os_num_mutex, os_max_tasks}
use embd_lab.Dispatch.{dispatch_save}
use embd_lab.SleepQueue.Chain.{length-le}
use embd_lab.Device.{dev_freq, signal, signal_loop, dev_update}
use embd_lab.Waiting.{Home, absent, ready, waits}
use embd_lab.Waiting.Frame.{Placed-frame}
use embd_lab.WellFormed.{IsSound, IsRunning, IsWellFormed}
use embd_lab.WellFormed.Switch.{IsFirst, dispatch_save-IsWellFormed}
use embd_lab.WellFormed.Sleep.{device_queue}
use embd_lab.WellFormed.Wake.{SameRest, SameRest-trans, IsSound-frame, raised, Woke, wake_all-Woke}

-- The interrupt at `millis` is the one that device `d` waits for.
abbrev pub due : Kernel → ℕ → ℕ → Bool
due k millis d = millis == (k.devices d).next_match

-- Device `d` is one of the `n` devices from `lo` on, and due.
abbrev pub fires : Kernel → ℕ → (lo n : ℕ) → ℕ → Bool
fires k millis lo n d = leb lo d && (ltb d (lo + n) && due k millis d)

-- Queue `w` belongs to such a device.
abbrev pub hit : Kernel → ℕ → (lo n : ℕ) → ℕ → Bool
hit k millis lo n w = leb os_num_mutex w && fires k millis lo n (w - os_num_mutex)

-- The queues and the places of the tasks after those devices have been signalled.
abbrev pub emptied : Kernel → ℕ → (lo n : ℕ) → (ℕ → List ℕ) → ℕ → List ℕ
emptied k millis lo n waiting w = if hit k millis lo n w then [] else waiting w

abbrev pub rise : Kernel → ℕ → (lo n : ℕ) → Home → Home
rise k millis lo n absent = absent
rise k millis lo n ready = ready
rise k millis lo n (waits w) = if hit k millis lo n w then ready else waits w

abbrev pub risen : Kernel → ℕ → (lo n : ℕ) → (ℕ → Home) → ℕ → Home
risen k millis lo n home t = rise k millis lo n (home t)

pub record Signalled (millis lo n : ℕ) (k k' : Kernel) (flag flag' : Bool) (waiting : ℕ → List ℕ)
    (home : ℕ → Home) : Type 0 where
  pub sound : IsSound k' (emptied k millis lo n waiting) (risen k millis lo n home)
  pub rest : SameRest k k'
  pub matches :
      (j : ℕ)
      → (k'.devices j).next_match ≡ (
          if fires k millis lo n j
          then ((k.devices j).next_match + dev_freq j) % 2 ^ 32
          else (k.devices j).next_match)
  pub quiet :
      flag' ≡ false
      → (flag ≡ false) × ((t : ℕ) → t < os_max_tasks → risen k millis lo n home t ≡ home t)

module _ (millis : ℕ) {k : Kernel} {waiting : ℕ → List ℕ} {home : ℕ → Home}
    (sound : IsSound k waiting home) (flag : Bool) (d : ℕ) (in_range : d < num_devices) where
  open sound use {placed, owned, idle_ready}
  open placed use {apart, members, enlisted}

  rescheduled : Kernel
  rescheduled = record k {
    devices =
        update k.devices d
          (record (k.devices d) { next_match = ((k.devices d).next_match + dev_freq d) % 2 ^ 32 });
  }

  rescheduled-IsSound : IsSound rescheduled waiting home
  unfolding rescheduled
  rescheduled-IsSound = record {
    placed =
        Placed-frame placed (λ a. refl) (λ a. refl) (λ w h. ground arith) (λ w h. refl) λ t h. refl;
    owned = owned;
    idle_ready = idle_ready;
  }

  short : length (waiting (device_queue d)) < os_max_tasks + 1
  short = omega (
    arith,
    length-le 64 (waiting (device_queue d)) (apart (device_queue d) (omega arith))
        λ a h. (members (device_queue d) a (omega arith) h).0,
  )

  quiet_queue : (xs : List ℕ) → raised flag xs ≡ false → (flag ≡ false) × (xs ≡ [])
  quiet_queue [] e = (e, refl)
  quiet_queue (_ ∷ _) e = absurd (cc)

  fired :
      {k' : Kernel}
      → due k millis d ≡ true
      → Woke rescheduled k' d (waiting (device_queue d)) waiting home
      → Signalled millis d 1 k k' flag (raised flag (waiting (device_queue d))) waiting home
  unfolding rescheduled
  fired hot w = record {
    sound =
        IsSound-frame w.sound (λ v h. ground arith)
          λ t h. ground (arith, members (device_queue d) t, enlisted (device_queue d) t);
    rest = record {
      same_cur = w.rest.same_cur;
      same_mutex = w.rest.same_mutex;
      same_time = w.rest.same_time;
      same_cpu = w.rest.same_cpu;
    };
    matches = λ j. ground (arith, w.same_match j);
    quiet = λ e.
        let nobody = quiet_queue (waiting (device_queue d)) e in
        (nobody.0, λ t h. ground (arith, enlisted (device_queue d) t, nobody.1));
  }

  unfired : due k millis d ≡ false → Signalled millis d 1 k k flag flag waiting home
  unfired cold = record {
    sound = IsSound-frame sound (λ w h. ground arith) (λ t h. ground arith);
    rest = record { same_cur = refl; same_mutex = refl; same_time = refl; same_cpu = refl };
    matches = λ j. ground arith;
    quiet = λ e. (e, λ t h. ground arith);
  }

  signal-Signalled :
      (k' : Kernel) × (flag' : Bool) × (signal millis d (k, flag) ≡ some (k', flag'))
      × Signalled millis d 1 k k' flag flag' waiting home
  unfolding signal rescheduled
  signal-Signalled = elim (Bool-cases (due k millis d)) [
    | inl hot ↦
        let (k', result, w) =
          wake_all-Woke (os_max_tasks + 1) d (waiting (device_queue d)) rescheduled flag
            rescheduled-IsSound in_range refl short in
        (k', raised flag (waiting (device_queue d)), rw hot result, fired hot w)
    | inr cold ↦ (k, flag, rw cold, unfired cold)
  ]

-- Signalling device `i`, and then the `n` devices after it.
Signalled-trans :
    (millis i n : ℕ) {k k₁ k' : Kernel} {flag flag₁ flag' : Bool} {waiting : ℕ → List ℕ}
    {home : ℕ → Home}
    → Signalled millis i 1 k k₁ flag flag₁ waiting home
    → Signalled millis
        (i + 1)
        n
        k₁
        k'
        flag₁
        flag'
        (emptied k millis i 1 waiting)
        (risen k millis i 1 home)
    → Signalled millis i (suc n) k k' flag flag' waiting home
Signalled-trans millis i n {k} {k₁} {k'} {flag} {flag₁} {flag'} {waiting} {home} a b = record {
  sound =
      IsSound-frame b.sound (λ w h. ground (arith, a.matches (w - os_num_mutex)))
        λ t h. same_home t;
  rest = SameRest-trans a.rest b.rest;
  matches = λ j. ground (arith, a.matches j, b.matches j);
  quiet = λ e.
      let later = b.quiet e in
      let now = a.quiet later.0 in (now.0, λ t h. same_home t ∙ (later.1 t h ∙ now.1 t h));
}
  where
    same_rise :
        (h : Home) → rise k millis i (suc n) h ≡ rise k₁ millis (i + 1) n (rise k millis i 1 h)
    same_rise absent = refl
    same_rise ready = refl
    same_rise (waits w) = ground (arith, a.matches (w - os_num_mutex))

    same_home :
        (t : ℕ)
        → risen k millis i (suc n) home t ≡ risen k₁ millis (i + 1) n (risen k millis i 1 home) t
    same_home t = same_rise (home t)

signal_loop-Signalled :
    (n i millis : ℕ) {k : Kernel} {waiting : ℕ → List ℕ} {home : ℕ → Home} (flag : Bool)
    → IsSound k waiting home
    → i + n ≤ num_devices
    → (k' : Kernel) × (flag' : Bool) × (signal_loop n millis i (k, flag) ≡ some (k', flag'))
      × Signalled millis i n k k' flag flag' waiting home
unfolding signal_loop
signal_loop-Signalled zero i millis {k} {waiting} {home} flag sound h = (
  k,
  flag,
  refl,
  record {
    sound = IsSound-frame sound (λ w l. ground arith) (λ t l. ground arith);
    rest = record { same_cur = refl; same_mutex = refl; same_time = refl; same_cpu = refl };
    matches = λ j. ground arith;
    quiet = λ e. (e, λ t l. ground arith);
  },
)
signal_loop-Signalled (suc n) i millis {k} flag sound h =
    let (k₁, flag₁, once, a) = signal-Signalled millis sound flag i (omega arith) in
    let (k', flag', more, b) = signal_loop-Signalled n (i + 1) millis flag₁ a.sound (omega arith) in
    (k', flag', rw (once, signal_loop) more, Signalled-trans millis i n a b)

-- The kernel after the interrupt at `millis`.
abbrev pub woken_queues : Kernel → ℕ → (ℕ → List ℕ) → ℕ → List ℕ
woken_queues k millis = emptied k millis 0 num_devices

abbrev pub woken_homes : Kernel → ℕ → (ℕ → Home) → ℕ → Home
woken_homes k millis = risen k millis 0 num_devices

-- Devices that are due get their next time, the others keep theirs.
abbrev pub Rescheduled : ℕ → Kernel → Kernel → Type 0
Rescheduled millis k k' =
    (j : ℕ)
    → j < num_devices
    → (k'.devices j).next_match ≡ (
        if due k millis j
        then ((k.devices j).next_match + dev_freq j) % 2 ^ 32
        else (k.devices j).next_match)

-- `k'` is well-formed, and either the first ready task runs or nothing was woken and no task changed.
pub record Updated (millis : ℕ) (k k' : Kernel) (waiting : ℕ → List ℕ) (home : ℕ → Home)
    : Type 0 where
  pub wf : IsWellFormed k' (woken_queues k millis waiting) (woken_homes k millis home)
  pub next_times : Rescheduled millis k k'
  pub same_mutex : k'.gt_mutex ≡ k.gt_mutex
  pub same_time : k'.system_time ≡ k.system_time
  pub who_runs :
      IsFirst (woken_homes k millis home) k'.cur_tcb
      ⊎ ((k'.cur_tcb ≡ k.cur_tcb)
          × ((t : ℕ) → t < os_max_tasks → woken_homes k millis home t ≡ home t))

dev_update-finish :
    (millis : ℕ) {k k₁ : Kernel} {waiting : ℕ → List ℕ} {home : ℕ → Home} (flag : Bool)
    → IsRunning k home
    → signal_loop num_devices millis 0 (k, false) ≡ some (k₁, flag)
    → Signalled millis 0 num_devices k k₁ false flag waiting home
    → (k' : Kernel) × (dev_update millis k ≡ some k') × Updated millis k k' waiting home
unfolding dev_update dispatch_save
dev_update-finish millis {k₁} true running e s =
    let (wf, first) = dispatch_save-IsWellFormed s.sound in
    (
      dispatch_save k₁,
      rw (e, dev_update),
      record {
        wf = wf;
        next_times = λ j h. ground (arith, s.matches j);
        same_mutex = s.rest.same_mutex;
        same_time = s.rest.same_time;
        who_runs = inl first;
      },
    )
dev_update-finish millis {k₁} {home} false running e s = (
  k₁,
  rw (e, dev_update),
  record {
    wf = record {
      sound = s.sound;
      running = record {
        small = ground (arith, running.small, s.rest.same_cur);
        is_ready = rw (s.rest.same_cur, running.is_ready) refl;
      };
    };
    next_times = λ j h. ground (arith, s.matches j);
    same_mutex = s.rest.same_mutex;
    same_time = s.rest.same_time;
    who_runs = inr (s.rest.same_cur, (s.quiet refl).1);
  },
)

-- `dev_update` ends within its fuel, from every well-formed state. Every task that sleeps on a device
-- whose time is `millis` becomes ready, no other task moves, no mutex changes, and the devices that
-- were due get their next time. The new state is well-formed, and either the first ready task runs,
-- or no task was woken and the same task runs.
pub dev_update_lem :
    (millis : ℕ) {k : Kernel} {waiting : ℕ → List ℕ} {home : ℕ → Home}
    → IsWellFormed k waiting home
    → (k' : Kernel) × (dev_update millis k ≡ some k') × Updated millis k k' waiting home
dev_update_lem millis wf =
    let (k₁, flag, e, s) =
      signal_loop-Signalled num_devices 0 millis false wf.sound (omega arith) in
    dev_update-finish millis flag wf.running e s
