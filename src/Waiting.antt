-- ===== src/Waiting.antt =====
-- Where every task is: the specification that run queue, mutexes and devices share. There are 95
-- sleep queues, `w < 32` of mutex `w` and `32 + d` of device `d`.
pub mod Frame
pub mod Sleep
pub mod Wake
use embd_lab.Prelude.{ℕ, ◌<◌, ◌≡◌, ◌≢◌, Bool, true, Option, none, some, List, elem, update}
use embd_lab.RunQueue.{RunQueue}
use embd_lab.RunQueue.Bitmap.{IsConsistent}
use embd_lab.Kernel.{Tcb, links}
use embd_lab.SleepQueue.Chain.{Chain, distinct}

pub data Home : Type 0 where
  absent : Home
  ready : Home
  waits : ℕ → Home

abbrev pub num_queues : ℕ
num_queues = 95

-- Every task is either absent, or in its own slot of the run queue and linked to nothing, or in
-- exactly one sleep queue, which is a list without duplicates.
pub record Placed (q : RunQueue) (tcbs : ℕ → Tcb) (head : ℕ → Option ℕ) (waiting : ℕ → List ℕ)
    (home : ℕ → Home) : Type 0 where
  pub consistent : IsConsistent q
  pub slots : (p t : ℕ) → p < 64 → q.run_list p ≡ some t → (t ≡ p) × (home p ≡ ready)
  pub listed : (p : ℕ) → p < 64 → home p ≡ ready → q.run_list p ≡ some p
  pub prios : (t : ℕ) → t < 64 → home t ≢ absent → (tcbs t).native_prio ≡ t
  pub unlinked : (t : ℕ) → t < 64 → home t ≡ ready → links tcbs t ≡ none
  pub chains : (w : ℕ) → w < num_queues → Chain (links tcbs) (head w) (waiting w)
  pub apart : (w : ℕ) → w < num_queues → distinct (waiting w) ≡ true
  pub members :
      (w t : ℕ) → w < num_queues → elem t (waiting w) ≡ true → (t < 64) × (home t ≡ waits w)
  pub enlisted :
      (w t : ℕ) → t < 64 → home t ≡ waits w → (w < num_queues) × (elem t (waiting w) ≡ true)
