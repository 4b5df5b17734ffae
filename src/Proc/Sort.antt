-- ===== src/Proc/Sort.antt =====
-- The selection sort of `task_create_syscall` permutes the array.
use embd_lab.Prelude.{
  ℕ, zero, suc, ◌+◌, ◌<◌, ◌≤◌, ◌≡◌, refl, ◌∙◌, Bool, arith, ltb, if◌then◌else◌, update,
}
use embd_lab.Kernel.{Task}
use embd_lab.Proc.{task_exchange, find_min, sort_loop}

abbrev one_if : Bool → ℕ
one_if b = if b then 1 else 0

-- How many of the first `n` tasks have the property `p`.
pub count : (Task → Bool) → ℕ → (ℕ → Task) → ℕ
count p zero tasks = 0
count p (suc n) tasks = count p n tasks + one_if (p (tasks n))

count-update_of_le :
    (p : Task → Bool) (n : ℕ) (tasks : ℕ → Task) (i : ℕ) (x : Task)
    → n ≤ i
    → count p n (update tasks i x) ≡ count p n tasks
unfolding count
count-update_of_le p zero tasks i x h = refl
count-update_of_le p (suc n) tasks i x h = ground (arith, count-update_of_le p n tasks i x)

count-update :
    (p : Task → Bool) (n : ℕ) (tasks : ℕ → Task) (i : ℕ) (x : Task)
    → i < n
    → count p n (update tasks i x) + one_if (p (tasks i)) ≡ count p n tasks + one_if (p x)
unfolding count
count-update p zero tasks i x h = absurd (omega arith)
count-update p (suc n) tasks i x h =
    ground (arith, count-update p n tasks i x, count-update_of_le p n tasks i x)

count-exchange :
    (p : Task → Bool) (n : ℕ) (tasks : ℕ → Task) (i j : ℕ)
    → i < n
    → j < n
    → count p n (task_exchange tasks i j) ≡ count p n tasks
unfolding task_exchange
count-exchange p n tasks i j hi hj = ground (
  arith,
  count-update p n tasks i (tasks j) hi,
  count-update p n (update tasks i (tasks j)) j (tasks i) hj,
)

-- The index that the inner loop finds lies in the range that it searched, and no period there is
-- shorter.
pub record IsMinimum (tasks : ℕ → Task) (from upto min : ℕ) : Type 0 where
  pub within : (from ≤ min) × (min < upto)
  pub least : (j : ℕ) → from ≤ j → j < upto → (tasks min).t ≤ (tasks j).t

pub find_min-IsMinimum :
    (rounds j : ℕ) (tasks : ℕ → Task) (from min : ℕ)
    → IsMinimum tasks from j min
    → IsMinimum tasks from (j + rounds) (find_min rounds j tasks min)
unfolding find_min
find_min-IsMinimum zero j tasks from min m = record {
  within = (m.within.0, omega (arith, m.within));
  least = λ i lo hi. m.least i lo (omega arith);
}
find_min-IsMinimum (suc rounds) j tasks from min m =
    let next = if ltb (tasks j).t (tasks min).t then j else min in
    let rest : IsMinimum tasks from (j + 1 + rounds) (find_min rounds (j + 1) tasks next) =
      find_min-IsMinimum rounds (j + 1) tasks from next (record {
        within = ground (arith, m.within);
        least = λ i lo hi. ground (arith, m.least i);
      }) in
    record {
      within = (rest.within.0, omega (arith, rest.within));
      least = λ i lo hi. rest.least i lo (omega arith);
    }

-- The minimum that a round of the outer loop exchanges.
pub round-IsMinimum :
    (rounds i : ℕ) (tasks : ℕ → Task)
    → IsMinimum tasks i (i + suc rounds) (find_min rounds (i + 1) tasks i)
round-IsMinimum rounds i tasks =
    let m : IsMinimum tasks i (i + 1 + rounds) (find_min rounds (i + 1) tasks i) =
      find_min-IsMinimum rounds (i + 1) tasks i i (record {
        within = omega arith;
        least = λ j lo hi. let e : j ≡ i = omega arith in rw e (omega arith);
      }) in
    record {
      within = (m.within.0, omega (arith, m.within));
      least = λ j lo hi. m.least j lo (omega arith);
    }

pub count-sort_loop :
    (p : Task → Bool) (n rounds i : ℕ) (tasks : ℕ → Task)
    → i + rounds ≡ n
    → count p n (sort_loop rounds i tasks) ≡ count p n tasks
unfolding sort_loop
count-sort_loop p n zero i tasks e = refl
count-sort_loop p n (suc rounds) i tasks e =
    let min = find_min rounds (i + 1) tasks i in
    let w = (round-IsMinimum rounds i tasks).within in
    count-sort_loop p n rounds (i + 1) (task_exchange tasks i min) (omega arith)
    ∙ count-exchange p n tasks i min (omega arith) (omega (arith, w))
