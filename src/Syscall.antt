-- ===== src/Syscall.antt =====
-- How a system call of kernel/syscall and kernel/lock ends, and the codes of
-- kernel/include/bits/errno.h. The handlers return most codes positive and -ENOMEM, -EBADF and
-- -EFAULT of read and write negative.
use embd_lab.Prelude.{ℤ, pos, negsuc}
use embd_lab.Kernel.{Kernel}

-- `returned`: the handler is done. `switched`: it has called a dispatch function, and what is left of
-- it runs when its task is switched to again. `fault`: it reads or writes through a null pointer or
-- in front of an array, or its loop has run out of fuel.
pub data Outcome : Type 0 where
  returned : Kernel → ℤ → Outcome
  switched : Kernel → Outcome
  fault : Outcome

abbrev pub eperm : ℤ
eperm = pos 1

abbrev pub einval : ℤ
einval = pos 22

abbrev pub efault : ℤ
efault = pos 14

-- -EBADF and -EFAULT.
abbrev pub minus_ebadf : ℤ
minus_ebadf = negsuc 8

abbrev pub minus_efault : ℤ
minus_efault = negsuc 13

abbrev pub esched : ℤ
esched = pos 100

abbrev pub edeadlock : ℤ
edeadlock = pos 58

-- -ENOMEM, which is -12.
abbrev pub minus_enomem : ℤ
minus_enomem = negsuc 11
