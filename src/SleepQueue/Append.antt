-- ===== src/SleepQueue/Append.antt =====
-- The append loop ends, and appends.
use embd_lab.Prelude.{
  ℕ, zero, suc, ◌<◌, ◌≡◌, refl, true, false, Option, none, some, List, [], ◌∷◌, ◌++◌, arith, length,
  elem,
}
use embd_lab.RunQueue.{runqueue_remove}
use embd_lab.Kernel.{Tcb, Kernel, links, set_link, os_max_tasks}
use embd_lab.Dispatch.{get_cur_prio}
use embd_lab.SleepQueue.{last_node, append_current}
use embd_lab.SleepQueue.Chain.{
  Chain, distinct, last, Chain-append, Chain-frame, elem-last, length-le,
}

-- With more fuel than the list is long the loop stops at the last node.
last_node-last :
    (fuel : ℕ) (tcbs : ℕ → Tcb) (p : Option ℕ) (x : ℕ) (xs : List ℕ)
    → Chain (links tcbs) p (x ∷ xs)
    → length xs < fuel
    → last_node fuel tcbs x ≡ some (last x xs)
unfolding last_node
last_node-last zero tcbs p x xs c h = absurd (omega arith)
last_node-last (suc fuel) tcbs p x [] c h = ground arith
last_node-last (suc fuel) tcbs p x (y ∷ ys) c h =
    let rest : last_node fuel tcbs y ≡ some (last y ys) =
      last_node-last fuel tcbs (links tcbs x) y ys c.1 (omega arith) in
    ground arith

-- The outcome of appending the running task to the queue `xs`.
pub record Appended (k : Kernel) (head : Option ℕ) (xs : List ℕ) : Type 0 where
  pub tcbs : ℕ → Tcb
  pub new_head : Option ℕ
  pub result :
      append_current head k
      ≡ some
          (new_head, record k { queue = (runqueue_remove k.queue k.cur_tcb).0; system_tcb = tcbs })
  pub chain : Chain (links tcbs) new_head (xs ++ k.cur_tcb ∷ [])
  pub same_links : (a : ℕ) → elem a xs ≡ false → links tcbs a ≡ links k.system_tcb a
  pub same_prio : (a : ℕ) → (tcbs a).native_prio ≡ (k.system_tcb a).native_prio
  pub same_context : (a : ℕ) → (tcbs a).context ≡ (k.system_tcb a).context

-- What the loop relies on: the running task is in its slot, linked to nothing and not in the queue.
pub record IsAppendable (k : Kernel) (head : Option ℕ) (xs : List ℕ) : Type 0 where
  pub chain : Chain (links k.system_tcb) head xs
  pub apart : distinct xs ≡ true
  pub small : (a : ℕ) → elem a xs ≡ true → a < 64
  pub outside : elem k.cur_tcb xs ≡ false
  pub prio : get_cur_prio k ≡ k.cur_tcb
  pub queued : k.queue.run_list k.cur_tcb ≡ some k.cur_tcb
  pub unlinked : links k.system_tcb k.cur_tcb ≡ none

module _ (k : Kernel) where
  removed :
      k.queue.run_list k.cur_tcb ≡ some k.cur_tcb
      → (runqueue_remove k.queue k.cur_tcb).1 ≡ some k.cur_tcb
  unfolding runqueue_remove
  removed e = e

  -- Where the queue is a well-formed list that does not hold the running task, and the task is in its
  -- own slot and linked to nothing, the loop neither faults nor runs out of fuel: it takes the task out
  -- of the run queue and puts it at the end of the queue, and no other link, priority or context changes.
  pub append_current-Appended :
      (head : Option ℕ) (xs : List ℕ) → IsAppendable k head xs → Appended k head xs
  unfolding append_current
  append_current-Appended none [] r = record {
    tcbs = k.system_tcb;
    new_head = some k.cur_tcb;
    result = rw (r.prio, removed r.queued);
    chain = (refl, r.unlinked);
    same_links = λ a h. refl;
    same_prio = λ a. refl;
    same_context = λ a. refl;
  }
  append_current-Appended (some p) [] r = absurd (ground (arith, r.chain))
  append_current-Appended none (x ∷ xs) r = absurd (ground (arith, r.chain))
  append_current-Appended (some p) (x ∷ xs) r = record {
    tcbs = set_link (set_link k.system_tcb (last x xs) (some k.cur_tcb)) k.cur_tcb none;
    new_head = some p;
    result =
        rw (end, append_current)
          (rw (r.prio, append_current) (rw (removed r.queued, append_current) (rw r.prio)));
    chain =
        Chain-frame (some p) (x ∷ xs ++ k.cur_tcb ∷ [])
          (Chain-append (links k.system_tcb) (some p) x xs k.cur_tcb r.chain r.apart r.outside)
          (λ a h. ground arith);
    same_links = λ a h. ground (arith, elem-last x xs, r.unlinked);
    same_prio = λ a. ground arith;
    same_context = λ a. ground arith;
  }
    where
      end : last_node os_max_tasks k.system_tcb p ≡ some (last x xs)
      end =
          let at_head : p ≡ x = ground (arith, r.chain) in
          rw at_head (
            last_node-last os_max_tasks k.system_tcb (some p) x xs r.chain
              (omega (arith, length-le 64 (x ∷ xs) r.apart r.small)))
