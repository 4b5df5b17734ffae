-- ===== src/RunQueue/Bitmap.antt =====
-- The bitmap of run_queue.c mirrors the array of runnable tasks.
use embd_lab.Prelude.{ℕ, ◌<◌, ◌≡◌, inl, inr, false, not, some, arith, ◌==◌, Bool-cases, is_some}
use embd_lab.Prelude.Bits.{
  bit, set_bit, bit-set_bit, bit-clear_bit, set_bit-lt, clear_bit-lt, bit-zero, clear_bit-zero,
}
use embd_lab.RunQueue.{RunQueue, runqueue_init, runqueue_add, runqueue_remove, group_of, bit_of}

-- Bit `p % 8` of byte `p / 8` says whether slot `p` is taken, and bit `y` of the group byte whether
-- byte `y` has a bit set.
pub record IsConsistent (q : RunQueue) : Type 0 where
  pub bytes : (y : ℕ) → y < 8 → q.run_bits y < 256
  pub group_byte : q.group_run_bits < 256
  pub listed : (p : ℕ) → p < 64 → bit (q.run_bits (group_of p)) (bit_of p) ≡ is_some (q.run_list p)
  pub grouped : (y : ℕ) → y < 8 → bit q.group_run_bits y ≡ not (q.run_bits y == 0)

-- The queue that `runqueue_init` leaves is consistent, whatever it was before.
pub runqueue_init-IsConsistent : (q : RunQueue) → IsConsistent (runqueue_init q)
unfolding runqueue_init
runqueue_init-IsConsistent q = record {
  bytes = λ y h. ground arith;
  group_byte = omega arith;
  listed = λ p h. ground (arith, bit-zero (bit_of p));
  grouped = λ y h. ground (arith, bit-zero y);
}

-- A byte with a bit set is not zero.
set_bit-ne-zero : (b x : ℕ) → b < 256 → x < 8 → (set_bit b x == 0) ≡ false
set_bit-ne-zero b x hb hx = elim (Bool-cases (set_bit b x == 0)) [
  | inl e ↦
      let zero_byte : set_bit b x ≡ 0 = ground arith in
      ground (arith, bit-set_bit b x x hb hx hx, bit-zero x hx, zero_byte)
  | inr e ↦ e
]

module _ {q : RunQueue} (c : IsConsistent q) (prio : ℕ) (below : prio < 64) where
  open c use {bytes, group_byte, listed, grouped}

  -- Adding a task at a priority below 64 keeps the bitmap in step with the array.
  pub runqueue_add-IsConsistent : (tcb : ℕ) → IsConsistent (runqueue_add q (some tcb) prio)
  unfolding runqueue_add
  runqueue_add-IsConsistent tcb = record {
    bytes = λ y h. ground (arith, bytes y, set_bit-lt (q.run_bits (group_of prio)) (bit_of prio));
    group_byte = set_bit-lt q.group_run_bits (group_of prio);
    listed = λ p h. ground (
      arith,
      listed p h,
      bytes (group_of p) (omega arith),
      bit-set_bit (q.run_bits (group_of p)) (bit_of prio) (bit_of p),
    );
    grouped = λ y h. ground (
      arith,
      grouped y h,
      bit-set_bit q.group_run_bits (group_of prio) y group_byte,
      set_bit-ne-zero (q.run_bits (group_of prio)) (bit_of prio)
          (bytes (group_of prio) (omega arith)),
    );
  }

  -- Removing the task of a priority below 64 keeps the bitmap in step with the array.
  pub runqueue_remove-IsConsistent : IsConsistent (runqueue_remove q prio).0
  unfolding runqueue_remove
  runqueue_remove-IsConsistent = record {
    bytes = λ y h. ground (arith, bytes y, clear_bit-lt (q.run_bits (group_of prio)) (bit_of prio));
    group_byte = ground (arith, clear_bit-lt q.group_run_bits (group_of prio));
    listed = λ p h. ground (
      arith,
      listed p h,
      bytes (group_of p) (omega arith),
      bit-clear_bit (q.run_bits (group_of p)) (bit_of prio) (bit_of p),
    );
    grouped = λ y h. ground (
      arith,
      grouped y h,
      bit-clear_bit q.group_run_bits (group_of prio) y group_byte,
      grouped (group_of prio),
      clear_bit-zero (q.run_bits (group_of prio)) (bit_of prio),
    );
  }
