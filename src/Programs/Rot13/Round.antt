-- ===== src/Programs/Rot13/Round.antt =====
-- One line that rot13.c reads and prints.
use embd_lab.Prelude.{
  ℕ, suc, ◌+◌, ◌<◌, ◌≤◌, ◌≡◌, refl, ◌∙◌, ap, ℤ, pos, false, not, List, [], ◌∷◌, ◌++◌, some, inl,
  inr, Bool-cases, arith, ◌==◌, ◌&&◌, if◌then◌else◌, length,
}
use mathlib.Core.List.{append_assoc, append-nil}
use embd_lab.Io.{
  newline, carriage_return, legel_mem_start_addr, kernel_start_addr, read_refused, read_syscall,
  read_loop, Reading, done, waiting_for_key, put_chars, written,
}
use embd_lab.Io.Read.{Shows, line, edited_line_fits, edit, Agrees, read_loop-Agrees}
use embd_lab.Io.Write.{written_lem}
use embd_lab.Programs.{checked_reply}
use embd_lab.Programs.Rot13.{
  Session, Layout, write, read, answered, rot, rot_loop, write_loop, end_line, rot_round, main_loop,
  is_positive, advanced,
}
use embd_lab.Programs.Rot13.Answer.{is_cut, answer, line_13_on, answer-line_13_on}
use embd_lab.Programs.Rot13.Buffers.{rot_loop_at, line_shown, written-rotated, write-prints}

-- Both buffers lie in user memory.
pub record InMemory (l : Layout) : Type 0 where
  pub in_low : legel_mem_start_addr ≤ l.in_address
  pub in_high : l.in_address + 10 ≤ kernel_start_addr
  pub out_low : legel_mem_start_addr ≤ l.out_address
  pub out_high : l.out_address + 11 ≤ kernel_start_addr

module _ (l : Layout) (mapped : InMemory l) where
  write_loop-ends :
      (fuel writeloc n : ℕ) (s : Session) {r : ℤ} {s₁ : Session}
      → write (l.out_address + writeloc) n (λ i. s.out_buffer (writeloc + i)) s ≡ (r, s₁)
      → (is_positive r && not (advanced writeloc r == n)) ≡ false
      → write_loop (suc fuel) l writeloc n s ≡ some (r, s₁)
  unfolding write_loop
  write_loop-ends fuel writeloc n s e last = rw (e, last) refl

  write_loop-once :
      (fuel n : ℕ) (s : Session)
      → n < 10
      → write_loop (suc fuel) l 0 (suc n) s
        ≡ some (
          pos (suc n),
          record s { console = s.console ++ written (suc n) (λ i. s.out_buffer (0 + i)) },
        )
  write_loop-once fuel n s small =
      write_loop-ends fuel 0 (suc n) s
        (write-prints (l.out_address + 0) n (λ i. s.out_buffer (0 + i)) s
          (omega (arith, mapped.out_low)) (omega (arith, mapped.out_high)))
        (ground arith)

  written-newline :
      (s : Session)
      → s.out_buffer 10 ≡ newline
      → written 1 (λ i. s.out_buffer (10 + i)) ≡ newline ∷ []
  unfolding put_chars
  written-newline s behind =
      let at : s.out_buffer (10 + 0) ≡ newline = ap s.out_buffer (omega arith) ∙ behind in
      written_lem 0 (λ i. s.out_buffer (10 + i)) (omega arith) ∙ rw at refl

  end_line-shown :
      (c : ℕ) (typed : List ℕ) (r : ℕ) (s : Session)
      → (suc (length typed) ≡ 10 → s.out_buffer 9 ≡ rot c)
      → s.out_buffer 10 ≡ newline
      → (v : ℕ) × (end_line l (suc (length typed)) (pos r, s) ≡ (
        pos v,
        record s { console = s.console ++ (if is_cut c typed then newline ∷ [] else []) },
      ))
  unfolding end_line
  end_line-shown c typed r s last behind =
      let same : ((suc (length typed) == 10)
            && (not (s.out_buffer 9 == newline) && not (s.out_buffer 9 == carriage_return)))
          ≡ is_cut c typed =
        ground (arith, last) in
      elim (Bool-cases (is_cut c typed)) [
        | inl cut ↦ (
          1,
          rw (same, cut)
              (write-prints (l.out_address + 10) 0 (λ i. s.out_buffer (10 + i)) s
                  (omega (arith, mapped.out_low)) (omega (arith, mapped.out_high))
                ∙ rw (written-newline s behind) refl),
        )
        | inr whole ↦ (r, rw (same, whole, append-nil) refl)
      ]

  rot_round-writes :
      (n : ℕ) (s : Session) {written : ℤ × Session}
      → write_loop 11 l 0 n (record s { out_buffer = rot_loop n 0 s.in_buffer s.out_buffer })
        ≡ some written
      → rot_round l n s ≡ some (end_line l n written)
  unfolding rot_round
  rot_round-writes n s e = rw (e, rot_round) refl

  -- The body of the loop, for the line `typed` with `c` at its end in the buffer.
  rot_round-shown :
      (c : ℕ) (typed : List ℕ) (s : Session)
      → suc (length typed) ≤ 10
      → Shows s.in_buffer (c ∷ typed)
      → s.out_buffer 10 ≡ newline
      → (v : ℕ) × (s' : Session) × (rot_round l (suc (length typed)) s ≡ some (pos v, s'))
        × (s'.console ≡ s.console ++ answer c typed)
        × (s'.out_buffer 10 ≡ newline)
  rot_round-shown c typed s small shows behind =
      let filled = rot_loop_at (suc (length typed)) 0 s.in_buffer s.out_buffer in
      let s₁ : Session = record s {
        out_buffer = rot_loop (suc (length typed)) 0 s.in_buffer s.out_buffer;
      } in
      let rotates : (i : ℕ) → i < suc (length typed) → s₁.out_buffer (0 + i) ≡ rot (s.in_buffer i) =
        λ i h. ground (arith, filled i) in
      let s₂ : Session = record s₁ {
        console = s.console ++ written (suc (length typed)) (λ i. s₁.out_buffer (0 + i));
      } in
      let kept : s₂.out_buffer 10 ≡ newline = ground (arith, filled 10) in
      let last : suc (length typed) ≡ 10 → s₂.out_buffer 9 ≡ rot c =
        λ h. rotates 9 (omega arith) ∙ ap rot (ap s.in_buffer (omega arith) ∙ shows.0) in
      let (v, ends) = end_line-shown c typed (suc (length typed)) s₂ last kept in
      (
        v,
        record s₂ { console = s₂.console ++ (if is_cut c typed then newline ∷ [] else []) },
        rot_round-writes (suc (length typed)) s (write_loop-once 10 (length typed) s₁ (omega arith))
            ∙ ap some ends,
        rw
            (written-rotated c typed (λ i. s₁.out_buffer (0 + i)) s.in_buffer (omega arith) shows
              rotates)
            (append_assoc s.console (line_shown c typed)
              (if is_cut c typed then newline ∷ [] else [])),
        kept,
      )

  -- Where the keys typed give the line `typed` with `c` at its end, `read` returns its length and prints
  -- `echo`.
  record Reads (keys : List ℕ) (c : ℕ) (typed : List ℕ) (s : Session) : Type 0 where
    buf : ℕ → ℕ
    echo : List ℕ
    reading : read_loop keys 10 0 s.in_buffer [] ≡ done (suc (length typed)) buf echo
    shows : Shows buf (c ∷ typed)

  Reads-line :
      (keys : List ℕ) (c : ℕ) (typed : List ℕ) (s : Session)
      → edit keys 10 [] ≡ line (c ∷ typed)
      → Reads keys c typed s
  Reads-line keys c typed s e =
      by_reading (read_loop keys 10 0 s.in_buffer []) refl
        (rw e at (read_loop-Agrees keys 10 s.in_buffer (omega arith)))
    where
      by_reading :
          (reading : Reading)
          → read_loop keys 10 0 s.in_buffer [] ≡ reading
          → Agrees (line (c ∷ typed)) reading
          → Reads keys c typed s
      by_reading (done ret buf echo) r (length_read, shows) = record {
        buf = buf;
        echo = echo;
        reading = rw length_read at r;
        shows = shows;
      }
      by_reading waiting_for_key r impossible = absurd impossible

  read-answers :
      (keys : List ℕ) (ret : ℕ) (buf : ℕ → ℕ) (echo : List ℕ) (s : Session)
      → read_loop keys 10 0 s.in_buffer [] ≡ done ret buf echo
      → read l keys s
        ≡ answered (pos ret, record s { in_buffer = buf; console = s.console ++ echo })
  unfolding read read_syscall checked_reply read_refused
  read-answers keys ret buf echo s e =
      let accepted : read_refused l.in_address 10 ≡ false =
        ground (arith, mapped.in_low, mapped.in_high) in
      rw (accepted, e) refl

  -- The round, in terms of `rot`.
  pub round_answers :
      (keys : List ℕ) (c : ℕ) (typed : List ℕ) (lines : List (List ℕ)) (s : Session)
      → s.out_buffer 10 ≡ newline
      → edit keys 10 [] ≡ line (c ∷ typed)
      → (s' : Session) × (echo : List ℕ) × (buf : ℕ → ℕ) × (read_loop keys 10 0 s.in_buffer []
          ≡ done (suc (length typed)) buf echo)
        × (main_loop l (keys ∷ lines) s ≡ main_loop l lines s')
        × (s'.console ≡ (s.console ++ echo) ++ answer c typed)
        × (s'.out_buffer 10 ≡ newline)
  unfolding main_loop
  round_answers keys c typed lines s behind e =
      let r = Reads-line keys c typed s e in
      let s₁ : Session = record s { in_buffer = r.buf; console = s.console ++ r.echo } in
      let (v, s', went, printed, kept) =
        rot_round-shown c typed s₁ (edited_line_fits keys 10 (c ∷ typed) e) r.shows behind in
      (
        s',
        r.echo,
        r.buf,
        r.reading,
        rw (read-answers keys (suc (length typed)) r.buf r.echo s r.reading, went, main_loop) refl,
        printed,
        kept,
      )

  -- Where the buffers lie in user memory, a newline stands behind the buffer to write from, and the keys
  -- typed during a `read` give, with the editing that `read` allows, a line that is not empty, a round
  -- of the loop prints after the echo of `read` the line with each letter replaced by the one 13 places on
  -- in the alphabet, counted round it, and a carriage return at its end by a newline; a newline
  -- follows where ten characters filled the buffer without an end of line. The loop then goes on; it does
  -- not run out of fuel.
  pub round_prints :
      (keys : List ℕ) (c : ℕ) (typed : List ℕ) (lines : List (List ℕ)) (s : Session)
      → s.out_buffer 10 ≡ newline
      → edit keys 10 [] ≡ line (c ∷ typed)
      → (s' : Session) × (echo : List ℕ) × (buf : ℕ → ℕ) × (read_loop keys 10 0 s.in_buffer []
          ≡ done (suc (length typed)) buf echo)
        × (main_loop l (keys ∷ lines) s ≡ main_loop l lines s')
        × (s'.console ≡ (s.console ++ echo) ++ line_13_on c typed)
        × (s'.out_buffer 10 ≡ newline)
  round_prints keys c typed lines s behind e =
      let (s', echo, buf, reading, went, printed, kept) =
        round_answers keys c typed lines s behind e in
      (s', echo, buf, reading, went, rw (← answer-line_13_on c typed) printed, kept)
