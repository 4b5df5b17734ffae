-- ===== src/Waiting/Wake.antt =====
-- The first task of a sleep queue becomes ready.
use embd_lab.Prelude.{
  ℕ, ◌<◌, ◌≡◌, inl, inr, true, Option, none, some, List, ◌∷◌, arith, ◌==◌, Bool-cases, elem, update,
}
use embd_lab.RunQueue.{RunQueue, runqueue_add}
use embd_lab.RunQueue.Bitmap.{runqueue_add-IsConsistent}
use embd_lab.Kernel.{Tcb, links, set_link}
use embd_lab.SleepQueue.Chain.{Chain, Chain-frame, distinct}
use embd_lab.Waiting.{Home, ready, waits, num_queues, Placed}

module _ {q : RunQueue} {tcbs : ℕ → Tcb} {head : ℕ → Option ℕ} {waiting : ℕ → List ℕ}
    {home : ℕ → Home} (placed : Placed q tcbs head waiting home) (w : ℕ) (in_range : w < num_queues)
    (t : ℕ) (rest : List ℕ) (first : waiting w ≡ t ∷ rest) where
  open placed use {consistent, slots, listed, prios, unlinked, chains, apart, members, enlisted}

  Chain-at : Chain (links tcbs) (head w) (t ∷ rest)
  Chain-at = rw first at (chains w in_range)

  -- The head of the queue points at it.
  pub Placed-head : head w ≡ some t
  Placed-head = Chain-at.0

  pub Placed-first : (t < 64) × (home t ≡ waits w) × ((tcbs t).native_prio ≡ t)
  Placed-first =
      let at_home : (t < 64) × (home t ≡ waits w) =
        members w t in_range (rw first (ground arith)) in
      (at_home.0, at_home.1, ground (arith, prios t))

  apart_at : distinct (t ∷ rest) ≡ true
  apart_at = rw first at (apart w in_range)

  member_at : (a : ℕ) → elem a (t ∷ rest) ≡ true → (a < 64) × (home a ≡ waits w)
  member_at a h = members w a in_range (rw first h)

  enlisted_at : (a : ℕ) → a < 64 → home a ≡ waits w → elem a (t ∷ rest) ≡ true
  enlisted_at a h e = rw first at ((enlisted w a h e).1)

  chains_kept :
      (v : ℕ)
      → v < num_queues
      → Chain
          (links (set_link tcbs t none))
          (update head w (links tcbs t) v)
          (update waiting w rest v)
  chains_kept v h = elim (Bool-cases (w == v)) [
    | inl e ↦ rw e (Chain-frame (links tcbs t) rest Chain-at.1 (λ b m. ground (arith, apart_at)))
    | inr e ↦ rw e (
        Chain-frame (head v) (waiting v) (chains v h)
          λ b m. ground (arith, members v b, Placed-first))
  ]

  pub Placed-wake :
      Placed
        (runqueue_add q (some t) (tcbs t).native_prio)
        (set_link tcbs t none)
        (update head w (links tcbs t))
        (update waiting w rest)
        (update home t ready)
  unfolding runqueue_add
  Placed-wake = record {
    consistent = rw Placed-first.2 (runqueue_add-IsConsistent consistent t Placed-first.0 t);
    slots = λ p s h e. ground (arith, slots p s, Placed-first);
    listed = λ p h e. ground (arith, listed p, Placed-first);
    prios = λ s h e. ground (arith, prios s, Placed-first);
    unlinked = λ s h e. ground (arith, unlinked s, Placed-first);
    chains = chains_kept;
    apart = λ v h. ground (arith, apart v, apart_at);
    members = λ v s h e. ground (arith, members v s, member_at s, apart_at);
    enlisted = λ v s h e. ground (arith, enlisted v s, enlisted_at s, Placed-first);
  }
