-- ===== src/Mutex/Create.antt =====
-- `mutex_create_syscall` hands out the first mutex that is available.
use embd_lab.Prelude.{
  ℕ, zero, suc, ◌+◌, ◌<◌, ◌≤◌, ◌≡◌, ◌⊎◌, inl, inr, refl, pos, true, false, arith, ◌==◌, Bool-cases,
  update,
}
use embd_lab.Kernel.{Kernel, os_num_mutex}
use embd_lab.Syscall.{minus_enomem}
use embd_lab.Mutex.{create_loop, mutex_create_syscall}

-- The kernel after mutex `i` has been handed out.
unfoldable pub hand_out : ℕ → Kernel → Kernel
hand_out i k = record k {
  gt_mutex = update k.gt_mutex i (record (k.gt_mutex i) { b_available = false });
}

-- Every mutex from `lo` up to `hi` has been created.
abbrev pub AllTaken : Kernel → (lo hi : ℕ) → Type 0
AllTaken k lo hi = (j : ℕ) → lo ≤ j → j < hi → (k.gt_mutex j).b_available ≡ false

-- `i` is the first mutex from `lo` on that is available.
pub record IsFirstAvailable (k : Kernel) (lo hi i : ℕ) : Type 0 where
  pub within : (lo ≤ i) × (i < hi)
  pub available : (k.gt_mutex i).b_available ≡ true
  pub taken_before : AllTaken k lo i

create_loop_lem :
    (rounds lo : ℕ) (k : Kernel)
    → (AllTaken k lo (lo + rounds) × (create_loop rounds lo k ≡ (k, minus_enomem)))
      ⊎ ((i : ℕ) × IsFirstAvailable k lo (lo + rounds) i
          × (create_loop rounds lo k ≡ (hand_out i k, pos i)))
unfolding create_loop hand_out
create_loop_lem zero lo k = inl (λ j l h. absurd (omega arith), refl)
create_loop_lem (suc rounds) lo k = elim (Bool-cases (k.gt_mutex lo).b_available) [
  | inl free ↦ inr (
    lo,
    record { within = omega arith; available = free; taken_before = λ j l h. absurd (omega arith) },
    ground arith,
  )
  | inr taken ↦ elim (create_loop_lem rounds (lo + 1) k) [
    | inl (all, e) ↦ inl (
      λ j l h. elim (Bool-cases (lo == j)) [
        | inl here ↦ let at : lo ≡ j = ground arith in rw (← at) taken
        | inr later ↦ all j (ground arith) (omega arith)
      ],
      ground arith,
    )
    | inr (i, first, e) ↦ inr (
      i,
      record {
        within = omega (arith, first.within);
        available = first.available;
        taken_before = λ j l h. elim (Bool-cases (lo == j)) [
          | inl here ↦ let at : lo ≡ j = ground arith in rw (← at) taken
          | inr later ↦ first.taken_before j (ground arith) h
        ];
      },
      ground arith,
    )
  ]
]

-- Either every mutex is taken, and the call returns -ENOMEM and changes nothing, or the call returns
-- the lowest mutex that is available, and takes exactly that one.
pub mutex_create_lem :
    (k : Kernel)
    → (AllTaken k 0 os_num_mutex × (mutex_create_syscall k ≡ (k, minus_enomem)))
      ⊎ ((i : ℕ) × IsFirstAvailable k 0 os_num_mutex i
          × (mutex_create_syscall k ≡ (hand_out i k, pos i)))
unfolding mutex_create_syscall
mutex_create_lem k = create_loop_lem os_num_mutex 0 k
