-- ===== src/Proc/Sorted.antt =====
-- The selection sort orders the array by period.
use embd_lab.Prelude.{ℕ, zero, suc, ◌+◌, ◌<◌, ◌≤◌, ◌≡◌, refl, Bool, arith}
use embd_lab.Kernel.{Task}
use embd_lab.Proc.{task_exchange, find_min, sort_loop, sort_tasks}
use embd_lab.Proc.Sort.{count, count-sort_loop, IsMinimum, round-IsMinimum}

-- After `i` rounds the first `i` tasks are in order, and no later one has a shorter period.
record IsPartSorted (n i : ℕ) (tasks : ℕ → Task) : Type 0 where
  ordered : (a b : ℕ) → a < i → a ≤ b → b < n → (tasks a).t ≤ (tasks b).t

exchange-IsPartSorted :
    (n i min : ℕ) (tasks : ℕ → Task)
    → i < n
    → IsPartSorted n i tasks
    → IsMinimum tasks i n min
    → IsPartSorted n (i + 1) (task_exchange tasks i min)
unfolding task_exchange
exchange-IsPartSorted n i min tasks h part m = record {
  ordered = λ a b la le lb. ground (
    arith,
    m.within,
    m.least b,
    m.least i,
    part.ordered a b,
    part.ordered a i,
    part.ordered a min,
  );
}

sort_loop-IsPartSorted :
    (n rounds i : ℕ) (tasks : ℕ → Task)
    → i + rounds ≡ n
    → IsPartSorted n i tasks
    → IsPartSorted n n (sort_loop rounds i tasks)
unfolding sort_loop
sort_loop-IsPartSorted n zero i tasks e part = record {
  ordered = λ a b la le lb. part.ordered a b (omega arith) le lb;
}
sort_loop-IsPartSorted n (suc rounds) i tasks e part =
    let min = find_min rounds (i + 1) tasks i in
    sort_loop-IsPartSorted n rounds (i + 1) (task_exchange tasks i min) (omega arith) (
      exchange-IsPartSorted n i min tasks (omega arith) part
        (rw e at (round-IsMinimum rounds i tasks)))

sort_loop_outside :
    (n rounds i : ℕ) (tasks : ℕ → Task)
    → i + rounds ≡ n
    → (j : ℕ) → n ≤ j
    → sort_loop rounds i tasks j ≡ tasks j
unfolding sort_loop task_exchange
sort_loop_outside n zero i tasks e j h = refl
sort_loop_outside n (suc rounds) i tasks e j h =
    let min = find_min rounds (i + 1) tasks i in
    let w = (round-IsMinimum rounds i tasks).within in
    ground
      (arith, w, sort_loop_outside n rounds (i + 1) (task_exchange tasks i min) (omega arith) j h)

-- The sort leaves the tasks in the order of their periods, from the shortest on.
pub sort_tasks-ordered :
    (n : ℕ) (tasks : ℕ → Task) (a b : ℕ)
    → a ≤ b
    → b < n
    → (sort_tasks n tasks a).t ≤ (sort_tasks n tasks b).t
unfolding sort_tasks
sort_tasks-ordered n tasks a b le lb =
    (sort_loop-IsPartSorted n n 0 tasks (omega arith)
        (record { ordered = λ a b la. absurd (omega arith) })).ordered
      a b (omega arith) le lb

-- The sort keeps how many tasks have any given property, so it loses and doubles none, and it writes
-- nothing behind the array.
pub sort_tasks-permutes :
    (n : ℕ) (tasks : ℕ → Task)
    → ((p : Task → Bool) → count p n (sort_tasks n tasks) ≡ count p n tasks)
      × ((j : ℕ) → sort_tasks n tasks (n + j) ≡ tasks (n + j))
unfolding sort_tasks
sort_tasks-permutes n tasks = (
  λ p. count-sort_loop p n n 0 tasks (omega arith),
  λ j. sort_loop_outside n n 0 tasks (omega arith) (n + j) (omega arith),
)
