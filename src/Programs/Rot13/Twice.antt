-- ===== src/Programs/Rot13/Twice.antt =====
-- What rot13.c prints for a line of ordinary characters, typed into it again.
use embd_lab.Prelude.{
  ℕ, suc, ◌<◌, ◌≡◌, refl, sym, ◌∙◌, ap, true, false, List, [], ◌∷◌, ◌++◌, arith, length,
}
use mathlib.Core.List.{map, append_assoc, append-nil}
use embd_lab.Io.{newline}
use embd_lab.Io.Plain.{is_plain, all_plain, entered, onto, edit-entered, echo_of, read_loop-echoes}
use embd_lab.Programs.Rot13.{Session, Layout, reads_on, rot, main_loop}
use embd_lab.Programs.Rot13.Buffers.{rotated}
use embd_lab.Programs.Rot13.Round.{InMemory, round_answers}
use embd_lab.Programs.Rot13.Answer.{is_cut, answer, places_on, rot-places_on}

rot-rot : (c : ℕ) → rot (rot c) ≡ c
unfolding rot
rot-rot c = ground arith

rot-is_plain : (c : ℕ) → is_plain c ≡ true → is_plain (rot c) ≡ true
unfolding rot
rot-is_plain c h = ground arith

map-rot-rot : (text : List ℕ) → map rot (map rot text) ≡ text
map-rot-rot [] = refl
map-rot-rot (c ∷ text) = cc (rot-rot c, map-rot-rot text)

map-places_on : (text : List ℕ) → map rot text ≡ map places_on text
map-places_on [] = refl
map-places_on (c ∷ text) = rw (rot-places_on c, map-places_on text) refl

map-all_plain : (text : List ℕ) → all_plain text ≡ true → all_plain (map rot text) ≡ true
map-all_plain [] h = refl
map-all_plain (c ∷ text) h = ground (arith, rot-is_plain c, map-all_plain text)

length-map : (text : List ℕ) → length (map rot text) ≡ length text
length-map [] = refl
length-map (c ∷ text) = ap suc (length-map text)

rotated-onto : (text typed : List ℕ) → rotated (onto text typed) ≡ rotated typed ++ map rot text
rotated-onto [] typed = sym (append-nil (rotated typed))
rotated-onto (c ∷ text) typed =
    rotated-onto text (c ∷ typed) ∙ append_assoc (rotated typed) (rot c ∷ []) (map rot text)

answer-onto : (text : List ℕ) → answer newline (onto text []) ≡ entered (map rot text)
unfolding rot
answer-onto text =
    let whole : is_cut newline (onto text []) ≡ false = ground arith in
    rw (whole, rotated-onto text []) (append-nil (entered (map rot text)))

module _ (l : Layout) (mapped : InMemory l) where
  line_answered :
      (text : List ℕ) (lines : List (List ℕ)) (s : Session)
      → s.out_buffer 10 ≡ newline
      → length text < 10
      → all_plain text ≡ true
      → (s' : Session) × (main_loop l (entered text ∷ lines) s ≡ main_loop l lines s')
        × (s'.console ≡ s.console ++ entered text ++ entered (map rot text))
        × (s'.out_buffer 10 ≡ newline)
  line_answered text lines s behind small plain =
      let (s', echo, buf, reading, went, printed, kept) =
        round_answers l mapped (entered text) newline (onto text []) lines s behind
          (edit-entered 10 text [] (omega arith) plain) in
      let echoed : echo ≡ entered text =
        sym (ap echo_of reading) ∙ read_loop-echoes text 0 s.in_buffer [] (omega arith) plain in
      (s', went, printed ∙ rw (echoed, answer-onto text) refl, kept)

  answered_in_turn :
      (text : List ℕ) (s : Session)
      → s.out_buffer 10 ≡ newline
      → length text < 10
      → all_plain text ≡ true
      → (s' : Session) × (main_loop l (entered text ∷ entered (map rot text) ∷ []) s ≡ reads_on s')
        × (s'.console
            ≡ s.console
              ++ entered text
              ++ entered (map rot text)
              ++ entered (map rot text)
              ++ entered text)
  unfolding main_loop
  answered_in_turn text s behind small plain =
      let (s₁, went₁, printed₁, kept) =
        line_answered text (entered (map rot text) ∷ []) s behind small plain in
      let (s₂, went₂, printed₂, _) =
        line_answered (map rot text) [] s₁ kept (omega (arith, length-map text))
          (map-all_plain text plain) in
      (s₂, went₁ ∙ went₂, printed₂ ∙ rw (printed₁, map-rot-rot text) refl)

  -- Where the buffers lie in user memory, and a newline stands behind the buffer to write from, a line of
  -- less than ten ordinary characters is answered with the line in which each letter is 13 places on in
  -- the alphabet, and that line, typed in turn, is answered with the first one.
  pub answered_twice :
      (text : List ℕ) (s : Session)
      → s.out_buffer 10 ≡ newline
      → length text < 10
      → all_plain text ≡ true
      → (s' : Session) × (main_loop l (entered text ∷ entered (map places_on text) ∷ []) s
          ≡ reads_on s')
        × (s'.console
            ≡ s.console
              ++ entered text
              ++ entered (map places_on text)
              ++ entered (map places_on text)
              ++ entered text)
  answered_twice text s behind small plain =
      let (s', went, printed) = answered_in_turn text s behind small plain in
      (s', rw (map-places_on text) at went, rw (map-places_on text) at printed)
