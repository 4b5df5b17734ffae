-- ===== src/Programs/Rot13/Buffers.antt =====
-- The buffers of rot13.c, and what `write` prints of them.
use embd_lab.Prelude.{
  ℕ, zero, suc, ◌+◌, ◌<◌, ◌≤◌, ◌≡◌, refl, ◌∙◌, ap, pos, false, List, [], ◌∷◌, ◌++◌, arith, ◌==◌,
  ◌&&◌, ltb, leb, if◌then◌else◌, length, update,
}
use embd_lab.Io.{
  newline, carriage_return, legel_mem_start_addr, kernel_start_addr, write_refused, put_chars,
  written, write_syscall,
}
use embd_lab.Io.Read.{Shows}
use embd_lab.Io.Write.{put_chars-last, written_lem}
use embd_lab.Programs.{checked_reply}
use embd_lab.Programs.Rot13.{Session, write, rot, rot_loop}

-- The loop fills the places of the characters read, and no other.
pub rot_loop_at :
    (rounds cnt : ℕ) (buf out : ℕ → ℕ) (i : ℕ)
    → rot_loop rounds cnt buf out i
      ≡ (if leb cnt i && ltb i (cnt + rounds) then rot (buf i) else out i)
unfolding rot_loop
rot_loop_at zero cnt buf out i = ground arith
rot_loop_at (suc rounds) cnt buf out i =
    ground (arith, rot_loop_at rounds (cnt + 1) buf (update out cnt (rot (buf cnt))) i)

-- The replaced characters of `typed`, which has its last character first.
abbrev pub rotated : List ℕ → List ℕ
rotated [] = []
rotated (c ∷ typed) = rotated typed ++ rot c ∷ []

pub put_chars-rotated :
    (typed : List ℕ) (mem buf : ℕ → ℕ)
    → Shows buf typed
    → ((i : ℕ) → i < length typed → mem i ≡ rot (buf i))
    → put_chars (length typed) 0 mem ≡ rotated typed
unfolding put_chars
put_chars-rotated [] mem buf s h = refl
put_chars-rotated (c ∷ typed) mem buf s h =
    let at : mem (0 + length typed) ≡ rot c =
      ap mem (omega arith) ∙ h (length typed) (omega arith) ∙ ap rot s.0 in
    put_chars-last (length typed) 0 mem
    ∙ rw (at, put_chars-rotated typed mem buf s.1 (λ i l. h i (omega arith))) refl

-- What `write` prints of such a line: a carriage return at its end becomes a newline.
abbrev pub line_shown : ℕ → List ℕ → List ℕ
line_shown c typed = rotated typed ++ (if rot c == carriage_return then newline else rot c) ∷ []

pub written-rotated :
    (c : ℕ) (typed : List ℕ) (mem buf : ℕ → ℕ)
    → length typed < 10
    → Shows buf (c ∷ typed)
    → ((i : ℕ) → i < suc (length typed) → mem i ≡ rot (buf i))
    → written (suc (length typed)) mem ≡ line_shown c typed
written-rotated c typed mem buf small s h =
    let at : mem (length typed) ≡ rot c = h (length typed) (omega arith) ∙ ap rot s.0 in
    written_lem (length typed) mem (omega arith)
    ∙ rw (at, put_chars-rotated typed mem buf s.1 (λ i l. h i (omega arith))) refl

-- A buffer in user memory is written.
pub write-prints :
    (buf n : ℕ) (mem : ℕ → ℕ) (s : Session)
    → legel_mem_start_addr ≤ buf
    → buf + suc n ≤ kernel_start_addr
    → write buf (suc n) mem s
      ≡ (pos (suc n), record s { console = s.console ++ written (suc n) mem })
unfolding write write_syscall checked_reply write_refused
write-prints buf n mem s low high =
    let accepted : write_refused buf (suc n) ≡ false = ground arith in rw accepted refl
