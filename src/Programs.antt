-- ===== src/Programs.antt =====
-- The user programs of tasks/ on top of the kernel, and what they use of tasks/libc.
pub mod Machine
pub mod Exclusive
pub mod Balanced
pub mod Creating
pub mod SysErr
pub mod Dagger
pub mod Stress
pub mod Rot13
pub mod Cyclone
pub mod MutexChaser
use Prim.Native.String.{String}
use embd_lab.Prelude.{ℕ, ◌+◌, ℤ, pos, negsuc, Bool, true, false, List, ◌==◌}

-- One call that prints. `putchar` takes a character; `puts` ends the line; what `printf` makes of its
-- format and arguments is not modelled.
pub data Print : Type 0 where
  putchar : ℕ → Print
  puts : String → Print
  printf : String → List ℕ → Print

-- The periods of tasks/libc/include/bits/dev.h.
abbrev pub period_dev0 : ℕ
period_dev0 = 100

abbrev pub period_dev1 : ℕ
period_dev1 = 200

abbrev pub period_dev2 : ℕ
period_dev2 = 500

abbrev pub period_dev3 : ℕ
period_dev3 = 50

-- The stubs mutex_create, read and write of tasks/libc/swi: a negative result becomes -1, and its
-- opposite is stored in `errno`, which is the second argument.
unfoldable pub checked_reply : ℤ → ℤ → ℤ × ℤ
checked_reply (pos n) errno = (pos n, errno)
checked_reply (negsuc n) errno = (negsuc 0, pos (n + 1))

-- ENOMEM, as the stubs store it.
abbrev pub enomem : ℤ
enomem = pos 12

-- The equality of two `int`s.
abbrev pub is_code : ℤ → ℤ → Bool
is_code (pos a) (pos b) = a == b
is_code (negsuc a) (negsuc b) = a == b
is_code _ _ = false

abbrev pub is_negative : ℤ → Bool
is_negative (pos _) = false
is_negative (negsuc _) = true
