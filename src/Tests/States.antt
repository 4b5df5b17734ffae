-- ===== src/Tests/States.antt =====
-- Concrete kernels: tasks 0 and 1 and the idle task exist, and mutex 0 has been created.
use embd_lab.Prelude.{
  ℕ, ◌+◌, ◌<◌, ◌≡◌, refl, true, false, ◌||◌, Option, none, some, List, [], ◌∷◌, arith, ◌==◌,
  if◌then◌else◌, is_some,
}
use embd_lab.RunQueue.{RunQueue, runqueue_init, runqueue_add}
use embd_lab.RunQueue.Bitmap.{IsConsistent, runqueue_init-IsConsistent, runqueue_add-IsConsistent}
use embd_lab.Kernel.{Tcb, Mutex, Dev, Kernel}
use embd_lab.Sched.{zero_context}
use embd_lab.Waiting.{Home, absent, ready, waits, num_queues, Placed}
use embd_lab.WellFormed.{head_of, IsWellFormed}

abbrev pub empty_queue : RunQueue
empty_queue = record { run_list = λ _. none; run_bits = λ _. 255; group_run_bits = 255 }

-- The run queue with task 1 and the idle task.
abbrev pub without_zero : RunQueue
without_zero = runqueue_add (runqueue_add (runqueue_init empty_queue) (some 1) 1) (some 63) 63

pub without_zero-IsConsistent : IsConsistent without_zero
without_zero-IsConsistent =
    runqueue_add-IsConsistent
      (runqueue_add-IsConsistent (runqueue_init-IsConsistent empty_queue) 1 (omega arith) 1) 63
      (omega arith) 63

abbrev pub with_zero : RunQueue
with_zero = runqueue_add without_zero (some 0) 0

pub with_zero-IsConsistent : IsConsistent with_zero
with_zero-IsConsistent = runqueue_add-IsConsistent without_zero-IsConsistent 0 (omega arith) 0

abbrev pub tcb : ℕ → Tcb
tcb a = record {
  native_prio = a;
  cur_prio = a;
  context = zero_context;
  holds_lock = 0;
  sleep_queue = none;
}

-- Mutex 0 as given; the others have not been created.
abbrev pub mutexes : Mutex → ℕ → Mutex
mutexes m i =
    if i == 0
    then m
    else record { b_available = true; p_holding_tcb = none; b_lock = false; p_sleep_queue = none }

abbrev pub free_mutex : Mutex
free_mutex = record {
  b_available = false;
  p_holding_tcb = none;
  b_lock = false;
  p_sleep_queue = none;
}

abbrev pub held_by : ℕ → Option ℕ → Mutex
held_by t head = record {
  b_available = false;
  p_holding_tcb = some t;
  b_lock = true;
  p_sleep_queue = head;
}

-- Device `d` has the given queue, and every device is due at 50.
abbrev pub devices : ℕ → Option ℕ → ℕ → Dev
devices d head i = record { sleep_queue = if i == d then head else none; next_match = 50 }

abbrev pub kernel : RunQueue → ℕ → Mutex → ℕ → Option ℕ → Kernel
kernel q cur m d head = record {
  queue = q;
  system_tcb = tcb;
  cur_tcb = cur;
  gt_mutex = mutexes m;
  devices = devices d head;
  system_time = 49;
  irq_enabled = true;
  cpu = zero_context;
}

-- Task 0 is in the given place, task 1 and the idle task are ready.
abbrev pub place_zero : Home → ℕ → Home
place_zero h t = if t == 0 then h else if (t == 1) || (t == 63) then ready else absent

abbrev pub queue_zero : ℕ → ℕ → List ℕ
queue_zero w v = if v == w then 0 ∷ [] else []

-- Nobody sleeps; task 0 runs.
abbrev pub idle_mutex : Kernel
idle_mutex = kernel with_zero 0 free_mutex 0 none

-- Nobody sleeps; task 0 runs, and task `t` holds mutex 0.
abbrev pub held : ℕ → Kernel
held t = kernel with_zero 0 (held_by t none) 0 none

-- Task 0 waits for mutex 0, which task 1 holds; task 1 runs.
abbrev pub contended : Kernel
contended = kernel without_zero 1 (held_by 1 (some 0)) 0 none

-- Task 0 sleeps on device `d`; task 1 runs.
abbrev pub asleep : ℕ → Kernel
asleep d = kernel without_zero 1 free_mutex d (some 0)

awake-Placed :
    (m : Mutex)
    → m.p_sleep_queue ≡ none
    → Placed with_zero tcb (head_of (kernel with_zero 0 m 0 none)) (λ _. []) (place_zero ready)
unfolding runqueue_add runqueue_init
awake-Placed m e = record {
  consistent = with_zero-IsConsistent;
  slots = λ p t h q. ground arith;
  listed = λ p h q. ground arith;
  prios = λ t h q. refl;
  unlinked = λ t h q. refl;
  chains = λ w h. ground arith;
  apart = λ w h. refl;
  members = λ w t h q. absurd (cc);
  enlisted = λ w t h q. absurd (ground arith);
}

pub awake-IsWellFormed :
    (m : Mutex)
    → m.p_sleep_queue ≡ none
    → m.b_available ≡ false
    → m.b_lock ≡ is_some m.p_holding_tcb
    → IsWellFormed (kernel with_zero 0 m 0 none) (λ _. []) (place_zero ready)
awake-IsWellFormed m e c l = record {
  sound = record {
    placed = awake-Placed m e;
    owned = record {
      locked = λ i h. ground arith;
      unwaited = λ i h q. refl;
      created = λ i h q. ground arith;
      holder_awake = λ i t h l q. ground arith;
    };
    idle_ready = refl;
  };
  running = record { small = omega arith; is_ready = refl };
}

asleep-Placed :
    (w : ℕ) (head : ℕ → Option ℕ)
    → w < num_queues
    → ((v : ℕ) → v < num_queues → head v ≡ (if v == w then some 0 else none))
    → Placed without_zero tcb head (queue_zero w) (place_zero (waits w))
unfolding runqueue_add runqueue_init
asleep-Placed w head h at = record {
  consistent = without_zero-IsConsistent;
  slots = λ p t h q. ground arith;
  listed = λ p h q. ground arith;
  prios = λ t h q. refl;
  unlinked = λ t h q. refl;
  chains = λ v l. ground (arith, at v);
  apart = λ v l. ground arith;
  members = λ v t l q. ground arith;
  enlisted = λ v t l q. ground arith;
}

pub contended-IsWellFormed : IsWellFormed contended (queue_zero 0) (place_zero (waits 0))
contended-IsWellFormed = record {
  sound = record {
    placed = asleep-Placed 0 (head_of contended) (omega arith) (λ v h. ground arith);
    owned = record {
      locked = λ i h. ground arith;
      unwaited = λ i h q. ground arith;
      created = λ i h q. ground arith;
      holder_awake = λ i t h l q. ground arith;
    };
    idle_ready = refl;
  };
  running = record { small = omega arith; is_ready = refl };
}

pub asleep-IsWellFormed :
    (d : ℕ) → d < 63 → IsWellFormed (asleep d) (queue_zero (32 + d)) (place_zero (waits (32 + d)))
asleep-IsWellFormed d h = record {
  sound = record {
    placed = asleep-Placed (32 + d) (head_of (asleep d)) (omega arith) (λ v h. ground arith);
    owned = record {
      locked = λ i h. ground arith;
      unwaited = λ i h q. ground arith;
      created = λ i h q. ground arith;
      holder_awake = λ i t h l q. ground arith;
    };
    idle_ready = refl;
  };
  running = record { small = omega arith; is_ready = refl };
}
