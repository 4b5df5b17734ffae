-- ===== src/System/Safety.antt =====
-- What holds in every state that the tasks started by `task_create_syscall` can reach.
use embd_lab.Prelude.{
  ℕ, pos, ◌<◌, ◌≤◌, ◌≡◌, ◌≢◌, ◌⊎◌, inl, inr, refl, true, false, Option, none, some, List, arith,
  elem, ap,
}
use embd_lab.SleepQueue.Chain.{Chain, Chain-unique}
use embd_lab.WellFormed.{head_of}
use embd_lab.Kernel.{links, Task, Kernel, os_max_tasks}
use embd_lab.Sched.{Addresses, allocate_tasks}
use embd_lab.Sched.Start.{IsQuiet, allocate_tasks-IsWellFormed, allocate_tasks_mutex}
use embd_lab.Syscall.{returned}
use embd_lab.Mutex.{mutex_lock_resume}
use embd_lab.Waiting.{Home, absent, ready, waits, num_queues}
use embd_lab.WellFormed.Lock.{mutex_lock_resume_lem}
use embd_lab.System.{user, in_lock, System, Reach}
use embd_lab.System.Invariant.{Reach-Inv, locking-holds}
use embd_lab.System.Invariant.Defs.{Inv}

-- The system when the first task starts.
abbrev pub boot : Addresses → (ℕ → Task) → ℕ → Kernel → System
boot a tasks n k = record {
  kernel = allocate_tasks a tasks n k;
  pending = λ _. user;
  claims = λ _ _. false;
}

-- Queue `w` is the one sleep queue that holds `t`.
abbrev pub SleepsIn : System → ℕ → ℕ → Type 0
SleepsIn s t w =
    (queue : List ℕ) × Chain (links s.kernel.system_tcb) (head_of s.kernel w) queue
    × (elem t queue ≡ true)
    × ((v : ℕ) (other : List ℕ)
        → v < num_queues
        → Chain (links s.kernel.system_tcb) (head_of s.kernel v) other
        → elem t other ≡ true
        → v ≡ w)

module _ (a : Addresses) (tasks : ℕ → Task) (n : ℕ) (k : Kernel) (quiet : IsQuiet k)
    (few : n ≤ os_max_tasks) {s : System} (r : Reach (boot a tasks n k) s) where
  pub boot-Inv : Inv n (boot a tasks n k)
  boot-Inv = record {
    waiting = _;
    home = _;
    wf = (allocate_tasks-IsWellFormed a tasks n quiet few).0;
    alive = λ t h e. ground arith;
    claimed = λ t m h. absurd (ground arith);
    locking = λ t m l h. absurd (ground arith);
    known = λ t m l h.
        absurd
          (ground (arith, ap (λ x. x m) (allocate_tasks_mutex a tasks n k few), quiet.unheld m));
    asleep = λ t m l h e. absurd (ground arith);
  }

  pub reached : Inv n s
  reached = Reach-Inv boot-Inv r

  open reached use {waiting, home, wf, alive, claimed}
  open wf use {sound, running}

  -- In every state that at most 64 tasks reach, started from a state in which no task sleeps and no
  -- mutex is locked, two tasks whose calls to lock the same mutex have returned 0, with no
  -- successful unlock since, are one and the same.
  pub mutual_exclusion : (m t u : ℕ) → s.claims t m ≡ true → s.claims u m ≡ true → t ≡ u
  mutual_exclusion m t u ct cu = ground (arith, claimed t m, claimed u m)

  -- In every state that tasks started as for `mutual_exclusion` reach, a task that is switched to
  -- inside `mutex_lock_syscall` has been handed the mutex: its call returns 0, and changes no
  -- mutex.
  pub resumed_lock_holds :
      (m : ℕ)
      → s.pending s.kernel.cur_tcb ≡ in_lock m
      → ((s.kernel.gt_mutex m).p_holding_tcb ≡ some s.kernel.cur_tcb)
        × ((k' : Kernel) × (mutex_lock_resume m s.kernel ≡ returned k' (pos 0))
            × ((i : ℕ) → k'.gt_mutex i ≡ s.kernel.gt_mutex i))
  resumed_lock_holds m inside =
      let (c, held) = locking-holds reached m inside in
      let (k', e, same, _) = mutex_lock_resume_lem wf m c held in (held, (k', e, same))

  sleeps : (t w : ℕ) → t < 64 → home t ≡ waits w → SleepsIn s t w
  sleeps t w l e =
      let q = sound.placed.enlisted w t l e in
      (
        waiting w,
        sound.placed.chains w q.0,
        q.1,
        λ v other h c m.
            let same =
              Chain-unique (links s.kernel.system_tcb) (head_of s.kernel v) other (waiting v) c
                (sound.placed.chains v h) in
            let at = sound.placed.members v t h (rw same at m) in ground arith,
      )

  -- In every state that `n ≤ 63` tasks started as for `mutual_exclusion` reach, each of them is in
  -- its own slot of the run queue and linked to nothing, or in exactly one sleep queue and not in
  -- its slot.
  pub no_task_lost :
      (t : ℕ)
      → t < n
      → n ≤ 63
      → ((s.kernel.queue.run_list t ≡ some t) × (links s.kernel.system_tcb t ≡ none))
        ⊎ ((w : ℕ) × (w < num_queues) × SleepsIn s t w × (s.kernel.queue.run_list t ≡ none))
  no_task_lost t h l = place (home t) refl
    where
      present : home t ≢ absent
      present = alive t (ground arith)

      place :
          (at : Home)
          → home t ≡ at
          → ((s.kernel.queue.run_list t ≡ some t) × (links s.kernel.system_tcb t ≡ none))
            ⊎ ((w : ℕ) × (w < num_queues) × SleepsIn s t w × (s.kernel.queue.run_list t ≡ none))
      place absent e = absurd (present e)
      place ready e =
          inl (sound.placed.listed t (omega arith) e, sound.placed.unlinked t (omega arith) e)
      place (waits w) e =
          let q = sound.placed.enlisted w t (omega arith) e in
          inr (w, q.0, sleeps t w (omega arith) e, empty (s.kernel.queue.run_list t) refl)
        where
          empty : (o : Option ℕ) → s.kernel.queue.run_list t ≡ o → s.kernel.queue.run_list t ≡ none
          empty none q = q
          empty (some u) q = absurd (ground (arith, sound.placed.slots t u))
