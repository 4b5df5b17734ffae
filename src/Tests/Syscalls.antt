-- ===== src/Tests/Syscalls.antt =====
-- Input and output, time and integer routines.
use embd_lab.Prelude.{
  ℕ, ◌+◌, ◌-◌, ◌/◌, ◌≡◌, refl, true, some, List, [], ◌∷◌, arith, ◌==◌, if◌then◌else◌,
}
use embd_lab.Io.{newline, read_loop}
use embd_lab.Io.Read.{edit, Agrees, read_loop-Agrees}
use embd_lab.Io.Access.{accepts, LineRead, read_syscall_decided}
use embd_lab.Io.Plain.{entered, onto}
use embd_lab.Time.{sleep_syscall}
use embd_lab.Time.Sleep.{IsFirstRead, sleep_syscall_lem}
use embd_lab.Math.{ilog2, ilog2_ndebug}
use embd_lab.Math.Optimized.{ilog2_ndebug-eq}

-- The keys `a`, `b`, delete, `c` and return.
abbrev keys : List ℕ
keys = 97 ∷ 98 ∷ 127 ∷ 99 ∷ 13 ∷ []

read_loop-Agrees_example : Agrees (edit keys 10 []) (read_loop keys 10 0 (λ _. 0) [])
read_loop-Agrees_example = read_loop-Agrees keys 10 (λ _. 0) (omega arith)

-- The buffer wraps round, and is accepted all the same.
read_syscall_decided_example :
    LineRead 0xa0001000 0xf0000000
      (λ _. 0)
      (entered (97 ∷ 98 ∷ []))
      (newline ∷ onto (97 ∷ 98 ∷ []) [])
read_syscall_decided_example =
    read_syscall_decided 0xa0001000 0xf0000000 (λ _. 0) (97 ∷ 98 ∷ []) (omega arith) (omega arith)
      (omega arith) refl

wraps_round : accepts 0xa0001000 0xf0000000 ≡ true
wraps_round = refl

-- The byte at place `i` is 65 up to the fourth, which is a carriage return.
abbrev text : ℕ → ℕ
text i = if i == 3 then 13 else 65

-- The clock shows 5 three times, and then advances by one at each read.
abbrev clock : ℕ → ℕ
clock i = 5 + (i - 2)

sleep_syscall_lem_example :
    (i : ℕ) × (sleep_syscall 10 25 clock ≡ some i) × IsFirstRead clock (5 + 25 / 10) 1 i
sleep_syscall_lem_example =
    sleep_syscall_lem 10 25 4 clock (omega arith) (omega arith) (omega arith) (omega arith)
      (omega arith)

abbrev words : ℕ → ℕ
words i = 0xffffffff

ilog2_ndebug-eq_example : ilog2 1000 ≡ some (ilog2_ndebug 1000)
ilog2_ndebug-eq_example = ilog2_ndebug-eq 1000 (omega arith)
