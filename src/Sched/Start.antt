-- ===== src/Sched/Start.antt =====
-- The state in which the first task starts.
use embd_lab.Prelude.{
  ℕ, zero, suc, ◌+◌, ◌%◌, ◌<◌, ◌≤◌, ◌≡◌, refl, ◌∙◌, Bool, true, false, ◌||◌, none, some, [], arith,
  ◌==◌, ltb, if◌then◌else◌,
}
use embd_lab.RunQueue.{runqueue_init, runqueue_add}
use embd_lab.RunQueue.Bitmap.{IsConsistent, runqueue_init-IsConsistent, runqueue_add-IsConsistent}
use embd_lab.Kernel.{Task, Kernel, links, idle_prio, os_max_tasks}
use embd_lab.Dispatch.{dispatch_init, dispatch_nosave}
use embd_lab.Sched.{Addresses, sched_init, install, install_loop, allocated, allocate_tasks}
use embd_lab.Waiting.{Home, absent, ready}
use embd_lab.WellFormed.{head_of, IsSound, IsWellFormed}
use embd_lab.WellFormed.Switch.{dispatch_nosave-IsWellFormed}

-- No task sleeps anywhere and no mutex is locked, as at boot.
pub record IsQuiet (k : Kernel) : Type 0 where
  pub unlinked : (a : ℕ) → links k.system_tcb a ≡ none
  pub heads : (w : ℕ) → w < 95 → head_of k w ≡ none
  pub unlocked : (m : ℕ) → (k.gt_mutex m).b_lock ≡ false
  pub unheld : (m : ℕ) → (k.gt_mutex m).p_holding_tcb ≡ none

-- The places of the tasks while some of them have been installed.
abbrev pub installed : (ℕ → Bool) → ℕ → Home
installed present t = if present t then ready else absent

-- The tasks of `present` are installed, and nothing else is in the run queue.
record Holds (present : ℕ → Bool) (k : Kernel) : Type 0 where
  consistent : IsConsistent k.queue
  slots : (p : ℕ) → p < 64 → k.queue.run_list p ≡ (if present p then some p else none)
  prios : (t : ℕ) → t < 64 → present t ≡ true → (k.system_tcb t).native_prio ≡ t

-- What `allocate_tasks` leaves alone.
record SameWaits (k k' : Kernel) : Type 0 where
  same_links : (b : ℕ) → links k'.system_tcb b ≡ links k.system_tcb b
  same_mutex : k'.gt_mutex ≡ k.gt_mutex
  same_devices : k'.devices ≡ k.devices

SameWaits-trans : {k k' k'' : Kernel} → SameWaits k k' → SameWaits k' k'' → SameWaits k k''
SameWaits-trans x y = record {
  same_links = λ b. y.same_links b ∙ x.same_links b;
  same_mutex = y.same_mutex ∙ x.same_mutex;
  same_devices = y.same_devices ∙ x.same_devices;
}

-- The tasks below `num_tasks` and the idle task.
abbrev pub started : ℕ → ℕ → Bool
started num_tasks t = (idle_prio == t) || ltb t num_tasks

module _ (a : Addresses) where
  install-Holds :
      (index r4 r5 r6 : ℕ) {k : Kernel} {present : ℕ → Bool}
      → index < 64
      → Holds present k
      → Holds (λ t. (index == t) || present t) (install a index r4 r5 r6 k)
  unfolding install runqueue_add
  install-Holds index r4 r5 r6 small h = record {
    consistent = rw no_wrap (runqueue_add-IsConsistent h.consistent index small index);
    slots = λ p l. ground (arith, h.slots p);
    prios = λ t l e. ground (arith, h.prios t);
  }
    where
      no_wrap : index % 256 ≡ index
      no_wrap = omega arith

  install-SameWaits : (index r4 r5 r6 : ℕ) (k : Kernel) → SameWaits k (install a index r4 r5 r6 k)
  unfolding install
  install-SameWaits index r4 r5 r6 k = record {
    same_links = λ b. ground arith;
    same_mutex = refl;
    same_devices = refl;
  }

  Holds-frame :
      {k : Kernel} {present present' : ℕ → Bool}
      → Holds present k
      → ((t : ℕ) → present' t ≡ present t)
      → Holds present' k
  Holds-frame h same = record {
    consistent = h.consistent;
    slots = λ p l. ground (arith, h.slots p, same p);
    prios = λ t l e. ground (arith, h.prios t, same t);
  }

  install_loop-Holds :
      (rounds index : ℕ) (tasks : ℕ → Task) (k : Kernel)
      → index + rounds ≤ 64
      → Holds (λ t. ltb t index) k
      → Holds (λ t. ltb t (index + rounds)) (install_loop a rounds index tasks k)
        × SameWaits k (install_loop a rounds index tasks k)
  unfolding install_loop
  install_loop-Holds zero index tasks k l h = (
    Holds-frame h (λ t. ground arith),
    record { same_links = λ b. refl; same_mutex = refl; same_devices = refl },
  )
  install_loop-Holds (suc rounds) index tasks k l h =
      let task = tasks index in
      let k₁ = install a index task.lambda task.arg task.stack_pos k in
      let once = install-Holds index task.lambda task.arg task.stack_pos {k = k} (omega arith) h in
      let rest =
        install_loop-Holds rounds (index + 1) tasks k₁ (omega arith)
          (Holds-frame once (λ t. ground arith)) in
      (
        Holds-frame rest.0 (λ t. ground arith),
        SameWaits-trans (install-SameWaits index task.lambda task.arg task.stack_pos k) rest.1,
      )

  cleared : Kernel → Kernel
  cleared k = sched_init (record k { queue = runqueue_init k.queue })

  cleared-Holds : (k : Kernel) → Holds (λ t. ltb t 0) (cleared k) × SameWaits k (cleared k)
  unfolding cleared sched_init runqueue_init
  cleared-Holds k = (
    record {
      consistent = runqueue_init-IsConsistent k.queue;
      slots = λ p l. ground arith;
      prios = λ t l e. absurd (ground arith);
    },
    record { same_links = λ b. ground arith; same_mutex = refl; same_devices = refl },
  )

  allocated-Holds :
      (tasks : ℕ → Task) (num_tasks : ℕ) (k : Kernel)
      → num_tasks ≤ 64
      → Holds (started num_tasks) (allocated a tasks num_tasks k)
        × SameWaits k (allocated a tasks num_tasks k)
  unfolding allocated cleared dispatch_init
  allocated-Holds tasks num_tasks k l =
      let first = cleared-Holds k in
      let filled = install_loop-Holds num_tasks 0 tasks (cleared k) (omega arith) first.0 in
      let k₂ = install_loop a num_tasks 0 tasks (cleared k) in
      let all = install-Holds idle_prio a.idle 0 0 {k = k₂} (omega arith) filled.0 in
      let same =
        SameWaits-trans first.1
          (SameWaits-trans filled.1 (install-SameWaits idle_prio a.idle 0 0 k₂)) in
      let framed = Holds-frame all (λ t. ground arith) in
      (
        record { consistent = framed.consistent; slots = framed.slots; prios = framed.prios },
        record {
          same_links = same.same_links;
          same_mutex = same.same_mutex;
          same_devices = same.same_devices;
        },
      )

  -- Any kernel that holds just the tasks of `present`, the idle task among them, is sound.
  Holds-IsSound :
      {k k' : Kernel} {present : ℕ → Bool}
      → IsQuiet k
      → SameWaits k k'
      → Holds present k'
      → present idle_prio ≡ true
      → IsSound k' (λ _. []) (installed present)
  Holds-IsSound {k} {k'} quiet same h idle = record {
    placed = record {
      consistent = h.consistent;
      slots = λ p t l e. ground (arith, h.slots p);
      listed = λ p l e. ground (arith, h.slots p);
      prios = λ t l e. ground (arith, h.prios t);
      unlinked = λ t l e. same.same_links t ∙ quiet.unlinked t;
      chains = λ w l. ground (arith, same.same_mutex, same.same_devices, quiet.heads w);
      apart = λ w l. refl;
      members = λ w t l e. absurd (cc);
      enlisted = λ w t l e. absurd (ground arith);
    };
    owned = record {
      locked = λ m l. ground (arith, same.same_mutex, quiet.unlocked m, quiet.unheld m);
      unwaited = λ m l e. refl;
      created = λ m l e. rw same.same_mutex (quiet.unlocked m);
      holder_awake = λ m t l s e. ground arith;
    };
    idle_ready = rw idle;
  }

  -- From a state in which no task sleeps and no mutex is locked, `allocate_tasks` leaves a well-formed
  -- state in which exactly the given tasks and the idle task exist and are ready. The task that runs
  -- is the first one, or the idle task if there is none.
  pub allocate_tasks-IsWellFormed :
      (tasks : ℕ → Task) (num_tasks : ℕ) {k : Kernel}
      → IsQuiet k
      → num_tasks ≤ os_max_tasks
      → IsWellFormed (allocate_tasks a tasks num_tasks k) (λ _. []) (installed (started num_tasks))
        × ((allocate_tasks a tasks num_tasks k).cur_tcb ≡ (if num_tasks == 0 then idle_prio else 0))
  unfolding allocate_tasks
  allocate_tasks-IsWellFormed tasks num_tasks {k} quiet l =
      let (h, same) = allocated-Holds tasks num_tasks k l in
      let (wf, first) = dispatch_nosave-IsWellFormed (Holds-IsSound quiet same h refl) in
      (
        wf,
        ground
            (arith, first.is_ready, first.none_before 0, first.none_before idle_prio, first.small),
      )

  -- The mutexes stay as they are.
  pub allocate_tasks_mutex :
      (tasks : ℕ → Task) (num_tasks : ℕ) (k : Kernel)
      → num_tasks ≤ os_max_tasks
      → (allocate_tasks a tasks num_tasks k).gt_mutex ≡ k.gt_mutex
  unfolding allocate_tasks dispatch_nosave
  allocate_tasks_mutex tasks num_tasks k l = ((allocated-Holds tasks num_tasks k l).1).same_mutex

  -- And no task sleeps after it.
  pub allocate_tasks-IsQuiet :
      (tasks : ℕ → Task) (num_tasks : ℕ) {k : Kernel}
      → IsQuiet k
      → num_tasks ≤ os_max_tasks
      → IsQuiet (allocate_tasks a tasks num_tasks k)
  unfolding allocate_tasks dispatch_nosave
  allocate_tasks-IsQuiet tasks num_tasks {k} quiet l =
      let same = (allocated-Holds tasks num_tasks k l).1 in
      record {
        unlinked = λ b. same.same_links b ∙ quiet.unlinked b;
        heads = λ w h. rw (same.same_mutex, same.same_devices) (quiet.heads w h);
        unlocked = λ m. rw (same.same_mutex) (quiet.unlocked m);
        unheld = λ m. rw (same.same_mutex) (quiet.unheld m);
      }

  install_loop_time :
      (rounds i : ℕ) (tasks : ℕ → Task) (k : Kernel)
      → (install_loop a rounds i tasks k).system_time ≡ k.system_time
  unfolding install_loop install
  install_loop_time zero i tasks k = refl
  install_loop_time (suc rounds) i tasks k = install_loop_time rounds (i + 1) tasks _

  -- The clock stands still.
  pub allocate_tasks_time :
      (tasks : ℕ → Task) (num_tasks : ℕ) (k : Kernel)
      → (allocate_tasks a tasks num_tasks k).system_time ≡ k.system_time
  unfolding allocate_tasks allocated install sched_init dispatch_nosave dispatch_init
  allocate_tasks_time tasks num_tasks k = install_loop_time num_tasks 0 tasks _
