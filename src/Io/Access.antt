-- ===== src/Io/Access.antt =====
-- Which regions `read_syscall` and `write_syscall` accept.
use embd_lab.Prelude.{
  ℕ, ◌+◌, ◌-◌, ◌^◌, ◌<◌, ◌≤◌, ◌≡◌, ◌↔◌, ◌⊎◌, inl, inr, refl, pos, Bool, true, false, not, List, [],
  ◌∷◌, arith, leb, ◌&&◌, ◌||◌, Bool-cases, length,
}
use embd_lab.Syscall.{minus_efault}
use embd_lab.Io.{
  legel_mem_start_addr, kernel_start_addr, legel_mem_end_addr, abort_stack_end_addr, newline,
  read_refused, write_refused, Reading, done, waiting_for_key, refused, reads, read_loop,
  read_syscall,
}
use embd_lab.Io.Read.{Shows, line, Agrees, read_loop-Agrees}
use embd_lab.Io.Plain.{all_plain, entered, onto, edit-entered}

-- The region starts at or above the start of memory, and its end does not lie behind the start of the
-- kernel, or has wrapped round to an address that does not.
abbrev pub accepts : (buf count : ℕ) → Bool
accepts buf count =
    leb legel_mem_start_addr buf
    && (leb (buf + count) kernel_start_addr
        || leb (2 ^ 32) (buf + count) && leb (buf + count - 2 ^ 32) kernel_start_addr)

read_refused-accepts :
    (buf count : ℕ)
    → buf < 2 ^ 32
    → count < 2 ^ 32
    → read_refused buf count ≡ not (accepts buf count)
unfolding read_refused
read_refused-accepts buf count hb hc = ground arith

-- What a `read` does of a line that is typed: it refuses its buffer, or stores the characters in it,
-- the last one first in `typed`, and returns how many they are.
pub data LineRead (buf count : ℕ) (mem : ℕ → ℕ) (keys typed : List ℕ) : Type 0 where
  refuses :
      accepts buf count ≡ false
      → read_syscall (pos 0) buf count mem keys ≡ refused minus_efault
      → LineRead buf count mem keys typed
  stores :
      (stored : ℕ → ℕ) (out : List ℕ)
      → accepts buf count ≡ true
      → read_syscall (pos 0) buf count mem keys ≡ reads (done (length typed) stored out)
      → Shows stored typed
      → LineRead buf count mem keys typed

module _ (buf count : ℕ) (mem : ℕ → ℕ) (keys typed : List ℕ) where
  stores_line :
      (reading : Reading)
      → accepts buf count ≡ true
      → read_syscall (pos 0) buf count mem keys ≡ reads reading
      → Agrees (line typed) reading
      → LineRead buf count mem keys typed
  stores_line (done ret stored out) ok e (length_read, shows) =
      stores stored out ok (rw length_read at e) shows
  stores_line waiting_for_key ok e impossible = absurd impossible

-- A line of ordinary characters that fits, typed during a `read` from the standard input: it is stored at
-- `buf`, ended by its newline, and its length returned, exactly if the buffer starts at or above
-- the start of memory and ends at most where the kernel starts, or wraps round to such an end;
-- else EFAULT is returned. So a buffer that wraps round is accepted, and a long line is stored
-- over the kernel.
pub read_syscall_decided :
    (buf count : ℕ) (mem : ℕ → ℕ) (text : List ℕ)
    → buf < 2 ^ 32
    → count < 2 ^ 32
    → length text < count
    → all_plain text ≡ true
    → LineRead buf count mem (entered text) (newline ∷ onto text [])
unfolding read_syscall
read_syscall_decided buf count mem text hb hc fits plain = elim (Bool-cases (accepts buf count)) [
  | inl ok ↦
      let open_range : read_refused buf count ≡ false =
        rw ok at (read_refused-accepts buf count hb hc) in
      let agrees : Agrees (line (newline ∷ onto text []))
          (read_loop (entered text) count 0 mem []) =
        rw (edit-entered count text [] (omega arith) plain) at
          (read_loop-Agrees (entered text) count mem hc) in
      stores_line buf count mem (entered text) (newline ∷ onto text [])
        (read_loop (entered text) count 0 mem []) ok (rw open_range refl) agrees
  | inr bad ↦
      let closed_range : read_refused buf count ≡ true =
        rw bad at (read_refused-accepts buf count hb hc) in
      refuses bad (rw closed_range refl)
]

-- Where `buf + count` does not wrap, a buffer to write from is accepted exactly if it lies in memory
-- and crosses neither the start of the kernel nor the end of the abort stack.
pub write_refused_iff :
    (buf count : ℕ)
    → buf + count < 2 ^ 32
    → (write_refused buf count ≡ false) ↔ (
        (legel_mem_start_addr ≤ buf)
        × (buf + count ≤ legel_mem_end_addr)
        × ((kernel_start_addr ≤ buf) ⊎ (buf + count ≤ kernel_start_addr))
        × ((abort_stack_end_addr ≤ buf) ⊎ (buf + count ≤ abort_stack_end_addr)))
unfolding write_refused
write_refused_iff buf count h = (λ e. grind arith, λ e. ground arith)
