-- ===== src/Programs/Creating.antt =====
-- Calls of `mutex_create` in a row, as the programs of tasks/ make them.
use embd_lab.Prelude.{
  ℕ, ◌+◌, ◌<◌, ◌≤◌, ◌≡◌, inl, inr, refl, pos, true, false, arith, ◌==◌, Bool-cases, ◌∙◌, ltb, none,
}
use embd_lab.WellFormed.{head_of}
use embd_lab.Kernel.{Kernel, os_num_mutex}
use embd_lab.Sched.Start.{IsQuiet}
use embd_lab.Syscall.{minus_enomem}
use embd_lab.Mutex.{mutex_create_syscall}
use embd_lab.Mutex.Create.{hand_out, mutex_create_lem}

-- The mutexes below `i` have been handed out, and no other. No task sleeps, and no mutex is locked.
pub record IsFresh (i : ℕ) (k : Kernel) : Type 0 where
  pub quiet : IsQuiet k
  pub taken : (j : ℕ) → j < i → (k.gt_mutex j).b_available ≡ false
  pub free : (j : ℕ) → i ≤ j → j < os_num_mutex → (k.gt_mutex j).b_available ≡ true

hand_out-mutex :
    (i j : ℕ) (k : Kernel)
    → (((hand_out i k).gt_mutex j).b_lock ≡ (k.gt_mutex j).b_lock)
      × (((hand_out i k).gt_mutex j).p_holding_tcb ≡ (k.gt_mutex j).p_holding_tcb)
      × (((hand_out i k).gt_mutex j).p_sleep_queue ≡ (k.gt_mutex j).p_sleep_queue)
unfolding hand_out
hand_out-mutex i j k = elim (Bool-cases (i == j)) [
  | inl same ↦ let e : i ≡ j = ground arith in rw (same, e) (refl, refl, refl)
  | inr other ↦ rw other (refl, refl, refl)
]

hand_out-head_of : (i w : ℕ) (k : Kernel) → head_of k w ≡ none → head_of (hand_out i k) w ≡ none
unfolding hand_out
hand_out-head_of i w k old = elim (Bool-cases (ltb w os_num_mutex)) [
  | inl mutex ↦ rw mutex ((hand_out-mutex i w k).2 ∙ (rw mutex at old))
  | inr device ↦ rw device (rw device at old)
]

hand_out-IsFresh : (i : ℕ) {k : Kernel} → IsFresh i k → IsFresh (i + 1) (hand_out i k)
unfolding hand_out
hand_out-IsFresh i {k} f = record {
  quiet = record {
    unlinked = f.quiet.unlinked;
    heads = λ w h. hand_out-head_of i w k (f.quiet.heads w h);
    unlocked = λ m. (hand_out-mutex i m k).0 ∙ f.quiet.unlocked m;
    unheld = λ m. (hand_out-mutex i m k).1 ∙ f.quiet.unheld m;
  };
  taken = λ j h. ground (arith, f.taken j);
  free = λ j l h. ground (arith, f.free j);
}

-- The next call returns mutex `i`.
pub mutex_create-IsFresh :
    (i : ℕ) {k : Kernel}
    → i < os_num_mutex
    → IsFresh i k
    → (k' : Kernel) × (mutex_create_syscall k ≡ (k', pos i)) × IsFresh (i + 1) k'
mutex_create-IsFresh i {k} small f = elim (mutex_create_lem k) [
  | inl (all, e) ↦ absurd (ground (arith, all i, f.free i))
  | inr (j, first, e) ↦
      let same : j ≡ i =
        ground (arith, first.within, first.available, first.taken_before i, f.taken j, f.free i) in
      (hand_out i k, rw same at e, hand_out-IsFresh i f)
]

-- When all 32 have been handed out, the next call fails and changes nothing.
pub mutex_create-full :
    {k : Kernel} → IsFresh os_num_mutex k → mutex_create_syscall k ≡ (k, minus_enomem)
mutex_create-full {k} f = elim (mutex_create_lem k) [
  | inl (all, e) ↦ e
  | inr (j, first, e) ↦ absurd (ground (arith, first.within, first.available, f.taken j))
]
