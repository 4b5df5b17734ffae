-- ===== src/Io.antt =====
-- kernel/syscall/io.c. Addresses, sizes and counters are 32-bit numbers. The console of the boot loader
-- gives a list of typed characters and takes a list of printed ones.
pub mod Read
pub mod Plain
pub mod Write
pub mod Access
use embd_lab.Prelude.{
  ℕ, zero, suc, ◌+◌, ◌-◌, ◌%◌, ◌^◌, ℤ, pos, Bool, true, false, not, List, [], ◌∷◌, ◌++◌, ◌==◌, ltb,
  ◌&&◌, ◌||◌, if◌then◌else◌, update,
}
use embd_lab.Syscall.{minus_ebadf, minus_efault}

abbrev pub eot_char : ℕ
eot_char = 0x04

abbrev pub del_char : ℕ
del_char = 0x7f

abbrev pub newline : ℕ
newline = 10

abbrev pub carriage_return : ℕ
carriage_return = 13

abbrev pub legel_mem_start_addr : ℕ
legel_mem_start_addr = 0xa0000000

abbrev pub legel_mem_end_addr : ℕ
legel_mem_end_addr = 0xa4000000

abbrev pub kernel_start_addr : ℕ
kernel_start_addr = 0xa3000000

abbrev pub abort_stack_end_addr : ℕ
abort_stack_end_addr = 0xa3ededff

-- `buf + count`.
abbrev pub end_of : (buf count : ℕ) → ℕ
end_of buf count = (buf + count) % 2 ^ 32

-- The two tests of the range in `read_syscall`.
unfoldable pub read_refused : (buf count : ℕ) → Bool
read_refused buf count =
    ltb buf legel_mem_start_addr
    || ltb legel_mem_end_addr (end_of buf count)
    || ltb kernel_start_addr (end_of buf count)

-- The two tests of the range in `write_syscall`.
unfoldable pub write_refused : (buf count : ℕ) → Bool
write_refused buf count =
    ltb buf legel_mem_start_addr
    || ltb legel_mem_end_addr (end_of buf count)
    || (ltb buf abort_stack_end_addr && ltb abort_stack_end_addr (end_of buf count)
        || ltb buf kernel_start_addr && ltb kernel_start_addr (end_of buf count))

-- How reading ends: with the value returned, the buffer and what was printed, or still waiting for a
-- key.
pub data Reading : Type 0 where
  done : (ret : ℕ) → (buf : ℕ → ℕ) → (out : List ℕ) → Reading
  waiting_for_key : Reading

-- One round of the loop, for the character `c` typed: the loop returns, or goes on with a new index.
pub data Round : Type 0 where
  returns : (ret : ℕ) → (out : List ℕ) → Round
  goes_on : (i : ℕ) → (out : List ℕ) → Round

-- `puts("\b \b")`.
abbrev pub erase_char : List ℕ
erase_char = 8 ∷ 32 ∷ 8 ∷ []

unfoldable pub read_round : (c i : ℕ) → (out : List ℕ) → Round
read_round c i out =
    if c == eot_char
    then returns i out
    else if c == del_char
    then if i == 0
      then goes_on ((i + 2 ^ 32 - 1 + 1) % 2 ^ 32) out
      else goes_on (((i + 2 ^ 32 - 2) % 2 ^ 32 + 1) % 2 ^ 32) (out ++ erase_char)
    else if (c == newline) || (c == carriage_return)
    then returns ((i + 1) % 2 ^ 32) (out ++ newline ∷ [])
    else goes_on ((i + 1) % 2 ^ 32) (out ++ c ∷ [])

-- What follows the loop.
unfoldable pub read_end : (count i : ℕ) → (buf : ℕ → ℕ) → (out : List ℕ) → Reading
read_end count i buf out =
    let last = buf ((count + 2 ^ 32 - 1) % 2 ^ 32) in
    if (i == 10) && (not (last == newline) && not (last == carriage_return))
    then done i buf (out ++ newline ∷ [])
    else done i buf out

-- The loop of `read_syscall`, over the keys that are typed.
unfoldable pub read_loop : List ℕ → (count i : ℕ) → (buf : ℕ → ℕ) → (out : List ℕ) → Reading
read_loop [] count i buf out = if ltb i count then waiting_for_key else read_end count i buf out
read_loop (key ∷ keys) count i buf out = elim (ltb i count) [
  | true ↦ elim (read_round (key % 256) i out) [
    | returns ret out' ↦ done ret (update buf i (key % 256)) out'
    | goes_on i' out' ↦ read_loop keys count i' (update buf i (key % 256)) out'
  ]
  | false ↦ read_end count i buf out
]

-- A call that is refused returns its code; else it reads.
pub data ReadCall : Type 0 where
  refused : ℤ → ReadCall
  reads : Reading → ReadCall

-- `read_syscall`: `mem i` is the byte at `buf + i`.
unfoldable pub read_syscall :
    (fd : ℤ) → (buf count : ℕ) → (mem : ℕ → ℕ) → (keys : List ℕ) → ReadCall
read_syscall (ℤ.negsuc _) buf count mem keys = refused minus_ebadf
read_syscall (ℤ.pos fd) buf count mem keys =
    if fd == 0
    then if read_refused buf count
      then refused minus_efault
      else reads (read_loop keys count 0 mem [])
    else refused minus_ebadf

-- The characters that `putc` prints for `n` bytes from `i` on.
unfoldable pub put_chars : (n i : ℕ) → (ℕ → ℕ) → List ℕ
put_chars zero i mem = []
put_chars (suc n) i mem = mem i ∷ put_chars n (i + 1) mem

-- The output of `write_syscall`: `mem i` is the byte at `buf + i`, for `i` modulo 2 ^ 32.
unfoldable pub written : (count : ℕ) → (ℕ → ℕ) → List ℕ
written count mem =
    let last = (count + 2 ^ 32 - 1) % 2 ^ 32 in
    if mem last == carriage_return
    then put_chars last 0 mem ++ newline ∷ []
    else put_chars count 0 mem

pub data WriteCall : Type 0 where
  rejected : ℤ → WriteCall
  wrote : (ret : ℕ) → (out : List ℕ) → WriteCall

unfoldable pub write_syscall : (fd : ℤ) → (buf count : ℕ) → (mem : ℕ → ℕ) → WriteCall
write_syscall (ℤ.negsuc _) buf count mem = rejected minus_ebadf
write_syscall (ℤ.pos fd) buf count mem =
    if fd == 1
    then if write_refused buf count then rejected minus_efault else wrote count (written count mem)
    else rejected minus_ebadf
