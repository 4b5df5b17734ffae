-- ===== src/Tests/Rot13.antt =====
-- rot13.c with its buffers in user memory: "Hi" is typed with a slip, and answered with "Uv".
use embd_lab.Prelude.{ℕ, List, ◌≡◌, ◌∷◌, ◌++◌, [], refl, arith, pos}
use mathlib.Core.List.{map}
use embd_lab.Io.{read_loop, done, del_char}
use embd_lab.Io.Plain.{entered}
use embd_lab.Io.Read.{edit}
use embd_lab.Programs.Rot13.{Session, Layout, reads_on, main_loop, bytes}
use embd_lab.Programs.Rot13.Answer.{places_on, line_13_on}
use embd_lab.Programs.Rot13.Round.{InMemory, round_prints}
use embd_lab.Programs.Rot13.Twice.{answered_twice}

abbrev layout : Layout
layout = record {
  in_address = 0xa1000000;
  out_address = 0xa1000010;
  greeting_address = 0xa0000100;
  no_arguments_address = 0xa0000140;
  arguments_address = 0xa0000160;
  gap_address = 0xa0000170;
  line_end_address = 0xa0000174;
}

layout-InMemory : InMemory layout
layout-InMemory = record {
  in_low = omega arith;
  in_high = omega arith;
  out_low = omega arith;
  out_high = omega arith;
}

abbrev session : Session
session = record { in_buffer = λ _. 0; out_buffer = λ _. 10; errno = pos 0; console = [] }

-- 'H', 'o', delete, 'i', Enter.
abbrev keys : List ℕ
keys = b'H' ∷ b'o' ∷ del_char ∷ b'i' ∷ 10 ∷ []

hi_answer : line_13_on 10 (b'i' ∷ b'H' ∷ []) ≡ b'U' ∷ b'v' ∷ 10 ∷ []
hi_answer = refl

round_prints_example :
    (s' : Session) × (echo : List ℕ) × (buf : ℕ → ℕ) × (read_loop keys 10 0 session.in_buffer []
      ≡ done 3 buf echo)
    × (main_loop layout (keys ∷ []) session ≡ main_loop layout [] s')
    × (s'.console ≡ (session.console ++ echo) ++ line_13_on 10 (b'i' ∷ b'H' ∷ []))
    × (s'.out_buffer 10 ≡ 10)
unfolding edit
round_prints_example =
    round_prints layout layout-InMemory keys 10 (b'i' ∷ b'H' ∷ []) [] session refl refl

answered_twice_example :
    (s' : Session) × (main_loop layout
        (entered (bytes "Hi!") ∷ entered (map places_on (bytes "Hi!")) ∷ [])
        session
      ≡ reads_on s')
    × (s'.console
        ≡ session.console
          ++ entered (bytes "Hi!")
          ++ entered (map places_on (bytes "Hi!"))
          ++ entered (map places_on (bytes "Hi!"))
          ++ entered (bytes "Hi!"))
answered_twice_example =
    answered_twice layout layout-InMemory (bytes "Hi!") session refl (omega arith) refl
