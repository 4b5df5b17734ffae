-- ===== src/RunQueue.antt =====
-- kernel/sched/run_queue.c: which tasks can run, as an array of TCB pointers with a two-level bitmap.
-- A pointer into `system_tcb` is the index of its element, and `none` is the null pointer.
pub mod Bitmap
pub mod Priority
use embd_lab.Prelude.{
  ℕ, ◌+◌, ◌*◌, ◌/◌, ◌%◌, Option, none, List, [], ◌∷◌, ◌==◌, ltb, if◌then◌else◌, get_or, update,
}
use embd_lab.Prelude.Bits.{set_bit, clear_bit}

pub record RunQueue : Type 0 where
  pub run_list : ℕ → Option ℕ
  pub run_bits : ℕ → ℕ
  pub group_run_bits : ℕ

unfoldable pub prio_unmap_table : List ℕ
prio_unmap_table =
    0 ∷ 0 ∷ 1 ∷ 0 ∷ 2 ∷ 0 ∷ 1 ∷ 0 ∷ 3 ∷ 0 ∷ 1 ∷ 0 ∷ 2 ∷ 0 ∷ 1 ∷ 0 ∷ 4 ∷ 0 ∷ 1 ∷ 0 ∷ 2 ∷ 0 ∷ 1 ∷ 0
    ∷ 3 ∷ 0 ∷ 1 ∷ 0 ∷ 2 ∷ 0 ∷ 1 ∷ 0 ∷ 5 ∷ 0 ∷ 1 ∷ 0 ∷ 2 ∷ 0 ∷ 1 ∷ 0 ∷ 3 ∷ 0 ∷ 1 ∷ 0 ∷ 2 ∷ 0 ∷ 1 ∷ 0
    ∷ 4 ∷ 0 ∷ 1 ∷ 0 ∷ 2 ∷ 0 ∷ 1 ∷ 0 ∷ 3 ∷ 0 ∷ 1 ∷ 0 ∷ 2 ∷ 0 ∷ 1 ∷ 0 ∷ 6 ∷ 0 ∷ 1 ∷ 0 ∷ 2 ∷ 0 ∷ 1 ∷ 0
    ∷ 3 ∷ 0 ∷ 1 ∷ 0 ∷ 2 ∷ 0 ∷ 1 ∷ 0 ∷ 4 ∷ 0 ∷ 1 ∷ 0 ∷ 2 ∷ 0 ∷ 1 ∷ 0 ∷ 3 ∷ 0 ∷ 1 ∷ 0 ∷ 2 ∷ 0 ∷ 1 ∷ 0
    ∷ 5 ∷ 0 ∷ 1 ∷ 0 ∷ 2 ∷ 0 ∷ 1 ∷ 0 ∷ 3 ∷ 0 ∷ 1 ∷ 0 ∷ 2 ∷ 0 ∷ 1 ∷ 0 ∷ 4 ∷ 0 ∷ 1 ∷ 0 ∷ 2 ∷ 0 ∷ 1 ∷ 0
    ∷ 3 ∷ 0 ∷ 1 ∷ 0 ∷ 2 ∷ 0 ∷ 1 ∷ 0 ∷ 7 ∷ 0 ∷ 1 ∷ 0 ∷ 2 ∷ 0 ∷ 1 ∷ 0 ∷ 3 ∷ 0 ∷ 1 ∷ 0 ∷ 2 ∷ 0 ∷ 1 ∷ 0
    ∷ 4 ∷ 0 ∷ 1 ∷ 0 ∷ 2 ∷ 0 ∷ 1 ∷ 0 ∷ 3 ∷ 0 ∷ 1 ∷ 0 ∷ 2 ∷ 0 ∷ 1 ∷ 0 ∷ 5 ∷ 0 ∷ 1 ∷ 0 ∷ 2 ∷ 0 ∷ 1 ∷ 0
    ∷ 3 ∷ 0 ∷ 1 ∷ 0 ∷ 2 ∷ 0 ∷ 1 ∷ 0 ∷ 4 ∷ 0 ∷ 1 ∷ 0 ∷ 2 ∷ 0 ∷ 1 ∷ 0 ∷ 3 ∷ 0 ∷ 1 ∷ 0 ∷ 2 ∷ 0 ∷ 1 ∷ 0
    ∷ 6 ∷ 0 ∷ 1 ∷ 0 ∷ 2 ∷ 0 ∷ 1 ∷ 0 ∷ 3 ∷ 0 ∷ 1 ∷ 0 ∷ 2 ∷ 0 ∷ 1 ∷ 0 ∷ 4 ∷ 0 ∷ 1 ∷ 0 ∷ 2 ∷ 0 ∷ 1 ∷ 0
    ∷ 3 ∷ 0 ∷ 1 ∷ 0 ∷ 2 ∷ 0 ∷ 1 ∷ 0 ∷ 5 ∷ 0 ∷ 1 ∷ 0 ∷ 2 ∷ 0 ∷ 1 ∷ 0 ∷ 3 ∷ 0 ∷ 1 ∷ 0 ∷ 2 ∷ 0 ∷ 1 ∷ 0
    ∷ 4 ∷ 0 ∷ 1 ∷ 0 ∷ 2 ∷ 0 ∷ 1 ∷ 0 ∷ 3 ∷ 0 ∷ 1 ∷ 0 ∷ 2 ∷ 0 ∷ 1 ∷ 0 ∷ []

-- `prio_unmap_table[b]`.
unfoldable pub unmap : ℕ → ℕ
unfolding prio_unmap_table
unmap b = get_or prio_unmap_table b 0

-- Each loop resets the elements of its array; there are no others.
unfoldable pub runqueue_init : RunQueue → RunQueue
runqueue_init q = record {
  run_list = λ i. if ltb i 64 then none else q.run_list i;
  run_bits = λ i. if ltb i 8 then 0 else q.run_bits i;
  group_run_bits = 0;
}

-- `(prio >> 3) & 0x07` and `prio & 0x07`.
abbrev pub group_of : ℕ → ℕ
group_of prio = prio / 8 % 8

abbrev pub bit_of : ℕ → ℕ
bit_of prio = prio % 8

unfoldable pub runqueue_add : RunQueue → Option ℕ → ℕ → RunQueue
runqueue_add q tcb prio =
    let y = group_of prio in
    record {
      run_list = update q.run_list prio tcb;
      run_bits = update q.run_bits y (set_bit (q.run_bits y) (bit_of prio));
      group_run_bits = set_bit q.group_run_bits y;
    }

unfoldable pub runqueue_remove : RunQueue → ℕ → RunQueue × Option ℕ
runqueue_remove q prio =
    let y = group_of prio in
    let row = clear_bit (q.run_bits y) (bit_of prio) in
    (
      record {
        run_list = update q.run_list prio none;
        run_bits = update q.run_bits y row;
        group_run_bits = if row == 0 then clear_bit q.group_run_bits y else q.group_run_bits;
      },
      q.run_list prio,
    )

unfoldable pub highest_prio : RunQueue → ℕ
highest_prio q = let y = unmap q.group_run_bits in let x = unmap (q.run_bits y) in (y * 8 + x) % 256
