-- ===== src/Tests/Library.antt =====
-- The C library on concrete inputs.
use embd_lab.Prelude.{pos, some, none, ℕ, ◌+◌, ◌<◌, ◌≤◌, ◌≡◌, ◌⊎◌, refl, arith, [], ◌∷◌, ◌++◌}
use embd_lab.Libc.{isdigit, copy_up, copy_down, memmove, atol_loop, atol}
use embd_lab.Libc.Memory.{memmove-copies}
use embd_lab.Libc.Number.{decimal, atol-decimal}

-- Each address holds its own number.
abbrev own : ℕ → ℕ
own a = a

overlap : (memmove 102 100 4 own 104 ≡ 102) × (memmove 100 102 4 own 101 ≡ 103)
unfolding memmove copy_up copy_down
overlap = (refl, refl)

memmove-copies_example :
    ((i : ℕ) → i < 4 → memmove 102 100 4 own (102 + i) ≡ own (100 + i))
    × ((a : ℕ) → (a < 102) ⊎ (102 + 4 ≤ a) → memmove 102 100 4 own a ≡ own a)
memmove-copies_example = memmove-copies 102 100 4 own (omega arith) (omega arith)

atol-decimal_example : atol (decimal 10 2013 ++ (b' ' ∷ b'7' ∷ [])) ≡ some (pos 2013)
unfolding isdigit
atol-decimal_example = atol-decimal 2013 (b' ' ∷ b'7' ∷ []) (omega arith) refl

-- The greatest `long` is not read: the sum overflows before '0' is subtracted.
atol-greatest :
    atol (b'2' ∷ b'1' ∷ b'4' ∷ b'7' ∷ b'4' ∷ b'8' ∷ b'3' ∷ b'6' ∷ b'4' ∷ b'7' ∷ []) ≡ none
unfolding atol atol_loop isdigit
atol-greatest = refl
