-- ===== src/Waiting/Sleep.antt =====
-- A ready task goes to the end of a sleep queue.
use embd_lab.Prelude.{
  ℕ, ◌<◌, ◌≡◌, inl, inr, Option, List, [], ◌∷◌, ◌++◌, arith, ◌==◌, Bool-cases, elem-append, update,
}
use embd_lab.RunQueue.{runqueue_remove}
use embd_lab.RunQueue.Bitmap.{runqueue_remove-IsConsistent}
use embd_lab.Kernel.{Kernel, links}
use embd_lab.Dispatch.{get_cur_prio}
use embd_lab.SleepQueue.Chain.{Chain, Chain-frame, distinct-append}
use embd_lab.SleepQueue.Append.{Appended, IsAppendable}
use embd_lab.Waiting.{Home, ready, waits, num_queues, Placed}

module _ {k : Kernel} {head : ℕ → Option ℕ} {waiting : ℕ → List ℕ} {home : ℕ → Home}
    (placed : Placed k.queue k.system_tcb head waiting home) (small : k.cur_tcb < 64)
    (running : home k.cur_tcb ≡ ready) (w : ℕ) (in_range : w < num_queues) where
  open placed use {consistent, slots, listed, prios, unlinked, chains, apart, members, enlisted}

  -- The running task can be appended to any queue.
  pub Placed-IsAppendable : IsAppendable k (head w) (waiting w)
  unfolding get_cur_prio
  Placed-IsAppendable = record {
    chain = chains w in_range;
    apart = apart w in_range;
    small = λ a h. (members w a in_range h).0;
    outside = ground (arith, members w k.cur_tcb in_range);
    prio = ground (arith, prios k.cur_tcb);
    queued = ground (arith, listed k.cur_tcb);
    unlinked = ground (arith, unlinked k.cur_tcb);
  }

  module _ (a : Appended k (head w) (waiting w)) where
    slept : ℕ → Home
    slept = update home k.cur_tcb (waits w)

    chains_kept :
        (v : ℕ)
        → v < num_queues
        → Chain
            (links a.tcbs)
            (update head w a.new_head v)
            (update waiting w (waiting w ++ k.cur_tcb ∷ []) v)
    chains_kept v h = elim (Bool-cases (w == v)) [
      | inl e ↦ rw e a.chain
      | inr e ↦ rw e (
          Chain-frame (head v) (waiting v) (chains v h)
            λ b m. a.same_links b (ground (arith, members v b h, members w b in_range)))
    ]

    pub Placed-sleep :
        Placed
          (runqueue_remove k.queue k.cur_tcb).0
          a.tcbs
          (update head w a.new_head)
          (update waiting w (waiting w ++ k.cur_tcb ∷ []))
          (update home k.cur_tcb (waits w))
    unfolding runqueue_remove
    Placed-sleep = record {
      consistent = runqueue_remove-IsConsistent consistent k.cur_tcb small;
      slots = λ p t h e. ground (arith, slots p t);
      listed = λ p h e. ground (arith, listed p);
      prios = λ t h e. ground (arith, prios t, a.same_prio t);
      unlinked = λ t h e. ground (arith, unlinked t, a.same_links t, members w t);
      chains = chains_kept;
      apart = λ v h.
          ground (arith, apart v, members w k.cur_tcb, distinct-append (waiting w) k.cur_tcb);
      members = λ v t h e. ground (arith, members v t, elem-append t (waiting w) (k.cur_tcb ∷ []));
      enlisted =
          λ v t h e. ground (arith, enlisted v t, elem-append t (waiting w) (k.cur_tcb ∷ []));
    }
