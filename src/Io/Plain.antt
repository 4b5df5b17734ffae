-- ===== src/Io/Plain.antt =====
-- Lines of ordinary characters, as `read_syscall` takes them.
use embd_lab.Prelude.{
  ℕ, ◌+◌, ◌%◌, ◌<◌, ◌≡◌, refl, ◌∙◌, Bool, true, not, List, [], ◌∷◌, ◌++◌, arith, ◌==◌, ◌&&◌, ltb,
  length, update,
}
use mathlib.Core.List.{append_assoc}
use embd_lab.Io.{
  eot_char, del_char, newline, carriage_return, Reading, done, waiting_for_key, read_loop,
}
use embd_lab.Io.Read.{line, edit, round_end, round_char}

-- A character that `read` takes as it is, and that does not end a line.
abbrev pub is_plain : ℕ → Bool
is_plain c =
    ltb c 256
    && (not (c == eot_char) && not (c == del_char))
    && (not (c == newline) && not (c == carriage_return))

abbrev pub all_plain : List ℕ → Bool
all_plain [] = true
all_plain (c ∷ text) = is_plain c && all_plain text

-- `text` and the newline that ends it.
abbrev pub entered : List ℕ → List ℕ
entered text = text ++ newline ∷ []

-- The characters of `text` in front of `typed`, the last one first.
abbrev pub onto : List ℕ → List ℕ → List ℕ
onto [] typed = typed
onto (c ∷ text) typed = onto text (c ∷ typed)

-- A typed line is taken as it is.
pub edit-entered :
    (count : ℕ) (text typed : List ℕ)
    → length text + length typed < count
    → all_plain text ≡ true
    → edit (entered text) count typed ≡ line (newline ∷ onto text typed)
unfolding edit
edit-entered count [] typed small plain = ground arith
edit-entered count (c ∷ text) typed small plain =
    let low : c % 256 ≡ c = ground arith in
    let rest = edit-entered count text (c ∷ typed) (omega arith) (ground arith) in
    ground (arith, rest, low)

-- And echoed as it is.
abbrev pub echo_of : Reading → List ℕ
echo_of (done ret buf out) = out
echo_of waiting_for_key = []

pub read_loop-echoes :
    (text : List ℕ) (i : ℕ) (buf : ℕ → ℕ) (out : List ℕ)
    → length text + i < 10
    → all_plain text ≡ true
    → echo_of (read_loop (entered text) 10 i buf out) ≡ out ++ entered text
unfolding read_loop
read_loop-echoes [] i buf out small plain =
    let room : ltb i 10 ≡ true = ground arith in
    rw (room, round_end newline i out (omega arith) refl refl refl, read_loop) refl
read_loop-echoes (c ∷ text) i buf out small plain =
    let low : c % 256 ≡ c = ground arith in
    let room : ltb i 10 ≡ true = ground arith in
    rw
      (
        room,
        low,
        round_char c i out (omega arith) (ground arith) (ground arith) (ground arith),
        read_loop,
      )
      (read_loop-echoes text (i + 1) (update buf i (c % 256)) (out ++ c ∷ []) (omega arith)
          (ground arith)
        ∙ append_assoc out (c ∷ []) (entered text))
