-- ===== src/Programs/Rot13/Answer.antt =====
-- What rot13.c prints for a line, in terms of its own `rot` and of the alphabet.
use embd_lab.Prelude.{
  ℕ, suc, ◌+◌, ◌-◌, ◌%◌, ◌≡◌, refl, Bool, not, List, [], ◌∷◌, ◌++◌, arith, ◌==◌, leb, ◌&&◌, ◌||◌,
  if◌then◌else◌, length,
}
use embd_lab.Io.{newline, carriage_return}
use embd_lab.Programs.Rot13.{rot}
use embd_lab.Programs.Rot13.Buffers.{rotated, line_shown}

-- The line fills the buffer, and its last character does not end it.
abbrev pub is_cut : ℕ → List ℕ → Bool
is_cut c typed =
    (suc (length typed) == 10) && (not (rot c == newline) && not (rot c == carriage_return))

-- What is printed for the line `typed` with the character `c` at its end: each character replaced,
-- and a newline where the line is cut.
abbrev pub answer : ℕ → List ℕ → List ℕ
answer c typed = line_shown c typed ++ (if is_cut c typed then newline ∷ [] else [])

-- The letter 13 places on in the alphabet, past its end from its start again; other characters stay.
abbrev pub places_on : ℕ → ℕ
places_on c =
    if leb b'A' c && leb c b'Z'
    then b'A' + (c - b'A' + 13) % 26
    else if leb b'a' c && leb c b'z'
    then b'a' + (c - b'a' + 13) % 26
    else c

abbrev pub coded : List ℕ → List ℕ
coded [] = []
coded (c ∷ typed) = coded typed ++ places_on c ∷ []

abbrev ends_line : ℕ → Bool
ends_line c = (c == newline) || (c == carriage_return)

-- The line `typed` with the character `c` at its end, 13 places on. A carriage return becomes a newline,
-- and a newline follows ten characters that do not end with a newline or a carriage return.
abbrev pub line_13_on : ℕ → List ℕ → List ℕ
line_13_on c typed =
    coded typed
    ++ (if c == carriage_return then newline else places_on c) ∷ []
    ++ (if (suc (length typed) == 10) && not (ends_line c) then newline ∷ [] else [])

pub rot-places_on : (c : ℕ) → rot c ≡ places_on c
unfolding rot
rot-places_on c = ground arith

rotated-coded : (typed : List ℕ) → rotated typed ≡ coded typed
rotated-coded [] = refl
rotated-coded (c ∷ typed) = rw (rotated-coded typed, rot-places_on c) refl

pub answer-line_13_on : (c : ℕ) (typed : List ℕ) → answer c typed ≡ line_13_on c typed
answer-line_13_on c typed =
    let end : (if rot c == carriage_return then newline else rot c)
        ≡ (if c == carriage_return then newline else places_on c) =
      rw (rot-places_on c) (ground arith) in
    let cut : is_cut c typed ≡ ((suc (length typed) == 10) && not (ends_line c)) =
      rw (rot-places_on c) (ground arith) in
    rw (rotated-coded typed, end, cut) refl
