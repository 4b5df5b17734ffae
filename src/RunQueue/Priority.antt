-- ===== src/RunQueue/Priority.antt =====
-- `highest_prio` finds the lowest taken slot.
use embd_lab.Prelude.{
  ℕ, ◌+◌, ◌*◌, ◌<◌, ◌≡◌, refl, inl, inr, Bool, true, false, not, ◌&&◌, ◌||◌, none, arith, ◌==◌, ltb,
  Bool-cases, is_some,
}
use embd_lab.Prelude.Bits.{bit, for_each, for_each_at, bit-zero}
use embd_lab.RunQueue.{RunQueue, unmap, highest_prio, group_of, bit_of}
use embd_lab.RunQueue.Bitmap.{IsConsistent}

-- The table's entry for a byte names its lowest set bit.
lowest : ℕ → Bool
lowest b =
    (b == 0)
    || (ltb (unmap b) 8 && (bit b (unmap b) && for_each 8 (λ z. not (ltb z (unmap b) && bit b z))))

lowest_table : for_each 256 lowest ≡ true
unfolding for_each lowest unmap bit
lowest_table = refl

record IsLowest (b x : ℕ) : Type 0 where
  small : x < 8
  is_set : bit b x ≡ true
  clear_below : (z : ℕ) → z < x → bit b z ≡ false

unmap-IsLowest : (b : ℕ) → b < 256 → (b == 0) ≡ false → IsLowest b (unmap b)
unfolding lowest
unmap-IsLowest b small ne = record {
  small = ground (arith, entry);
  is_set = ground (arith, entry);
  clear_below =
      λ z h. ground (arith, entry, for_each_at 8 (λ z. not (ltb z (unmap b) && bit b z)) z);
}
  where
    entry : lowest b ≡ true
    entry = for_each_at 256 lowest b lowest_table small

-- The slot `p` is taken, and no slot below it is.
pub record IsLeast (q : RunQueue) (p : ℕ) : Type 0 where
  pub in_range : p < 64
  pub taken : is_some (q.run_list p) ≡ true
  pub free_below : (j : ℕ) → j < p → q.run_list j ≡ none

module _ {q : RunQueue} (c : IsConsistent q) where
  open c use {bytes, group_byte, listed, grouped}

  row_taken :
      (p : ℕ) → p < 64 → is_some (q.run_list p) ≡ true → (q.run_bits (group_of p) == 0) ≡ false
  row_taken p h taken = elim (Bool-cases (q.run_bits (group_of p) == 0)) [
    | inl e ↦
        let zero_row : q.run_bits (group_of p) ≡ 0 = ground arith in
        ground (arith, listed p h, bit-zero (bit_of p), zero_row)
    | inr e ↦ e
  ]

  group_taken : (y : ℕ) → y < 8 → (q.run_bits y == 0) ≡ false → (q.group_run_bits == 0) ≡ false
  group_taken y h ne = elim (Bool-cases (q.group_run_bits == 0)) [
    | inl e ↦
        let zero_group : q.group_run_bits ≡ 0 = ground arith in
        ground (arith, grouped y h, bit-zero y h, zero_group)
    | inr e ↦ e
  ]

  slot-IsLeast :
      {y x : ℕ} → IsLowest q.group_run_bits y → IsLowest (q.run_bits y) x → IsLeast q (y * 8 + x)
  slot-IsLeast {y} {x} ys xs = record {
    in_range = omega arith;
    taken = rw (← listed (y * 8 + x) (omega arith), at_group, at_bit) xs.is_set;
    free_below = λ j lt. ground (
      arith,
      listed j,
      grouped (group_of j),
      ys.clear_below (group_of j),
      xs.clear_below (bit_of j),
      row_taken j,
    );
  }
    where
      open ys use {small as y_small}
      open xs use {small as x_small}

      at_group : group_of (y * 8 + x) ≡ y
      at_group = omega arith

      at_bit : bit_of (y * 8 + x) ≡ x
      at_bit = omega arith

  -- In a queue whose bitmap is in step with its array and in which some priority below 64 has a task,
  -- `highest_prio` is the lowest priority that has one.
  pub highest_prio-IsLeast :
      (p : ℕ) → p < 64 → is_some (q.run_list p) ≡ true → IsLeast q (highest_prio q)
  unfolding highest_prio
  highest_prio-IsLeast p h taken = rw no_wrap (slot-IsLeast ys xs)
    where
      y : ℕ
      y = unmap q.group_run_bits

      ys : IsLowest q.group_run_bits y
      ys =
          unmap-IsLowest q.group_run_bits group_byte
            (group_taken (group_of p) (omega arith) (row_taken p h taken))

      xs : IsLowest (q.run_bits y) (unmap (q.run_bits y))
      xs =
          unmap-IsLowest (q.run_bits y) (bytes y ys.small)
            (ground (arith, grouped y ys.small, ys.is_set))

      no_wrap : highest_prio q ≡ y * 8 + unmap (q.run_bits y)
      no_wrap = omega (arith, ys.small, xs.small)
