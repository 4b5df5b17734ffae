-- ===== src/Io/Read.antt =====
-- `read_syscall` is a line editor.
use native.Mathlib.Numerals.{add-one}
use embd_lab.Prelude.{
  ℕ, ◌+◌, ◌-◌, ◌%◌, ◌^◌, ◌<◌, ◌≤◌, ◌≡◌, inl, inr, refl, Bool, true, false, leb, ◌&&◌, ◌||◌, not,
  List, [], ◌∷◌, ◌++◌, arith, ◌==◌, ltb, Bool-cases, if◌then◌else◌, length, update,
}
use embd_lab.Io.{
  eot_char, del_char, newline, carriage_return, Reading, done, waiting_for_key, returns, goes_on,
  read_round, read_end, read_loop,
}

-- How editing ends: with a line, the last character first, or with all keys used.
pub data Edited : Type 0 where
  line : List ℕ → Edited
  unfinished : Edited

abbrev pub drop_last : List ℕ → List ℕ
drop_last [] = []
drop_last (_ ∷ typed) = typed

-- The line editor: `typed` holds the characters of the line so far, the last one first. A full line
-- ends, end-of-transmission ends the line as it is, delete takes the last character back, and a newline
-- or carriage return is kept and ends the line.
unfoldable pub edit : List ℕ → (count : ℕ) → (typed : List ℕ) → Edited
edit [] count typed = if ltb (length typed) count then unfinished else line typed
edit (key ∷ keys) count typed =
    let c = key % 256 in
    let shorter = edit keys count (drop_last typed) in
    let longer = edit keys count (c ∷ typed) in
    if ltb (length typed) count
    then if c == eot_char
      then line typed
      else if c == del_char
      then shorter
      else if (c == newline) || (c == carriage_return)
      then line (c ∷ typed)
      else longer
    else line typed

length-drop_last : (typed : List ℕ) → length (drop_last typed) ≡ length typed - 1
length-drop_last [] = omega arith
length-drop_last (_ ∷ typed) = omega arith

-- The line has at most `count` characters.
abbrev fits : ℕ → Edited → Bool
fits count (line typed) = leb (length typed) count
fits count unfinished = true

edit-fits :
    (keys : List ℕ) (count : ℕ) (typed : List ℕ)
    → length typed ≤ count
    → fits count (edit keys count typed) ≡ true
unfolding edit
edit-fits [] count typed h = ground arith
edit-fits (key ∷ keys) count typed h =
    let c = key % 256 in
    let shorter : fits count (edit keys count (drop_last typed)) ≡ true =
      edit-fits keys count (drop_last typed) (omega (arith, length-drop_last typed)) in
    elim (Bool-cases (ltb (length typed) count)) [
      | inl room ↦
          let longer : fits count (edit keys count (c ∷ typed)) ≡ true =
            edit-fits keys count (c ∷ typed) (ground arith) in
          ground (arith, shorter, longer)
      | inr full ↦ ground arith
    ]

pub edited_line_fits :
    (keys : List ℕ) (count : ℕ) (result : List ℕ)
    → edit keys count [] ≡ line result
    → length result ≤ count
edited_line_fits keys count result e =
    let h : fits count (line result) ≡ true = rw e at (edit-fits keys count [] (omega arith)) in
    ground arith

-- The buffer holds the line from its start: `typed` has its last character first.
abbrev pub Shows : (ℕ → ℕ) → List ℕ → Type 0
Shows buf [] = Unit {0}
Shows buf (c ∷ typed) = (buf (length typed) ≡ c) × Shows buf typed

Shows-update :
    (buf : ℕ → ℕ) (typed : List ℕ) (i v : ℕ)
    → length typed ≤ i
    → Shows buf typed
    → Shows (update buf i v) typed
Shows-update buf [] i v h s = tt
Shows-update buf (c ∷ typed) i v h s =
    (ground (arith, s.0), Shows-update buf typed i v (omega arith) s.1)

-- The call returns the length of the line, which stands in the buffer.
abbrev pub Agrees : Edited → Reading → Type 0
Agrees (line typed) (done ret buf out) = (ret ≡ length typed) × Shows buf typed
Agrees unfinished waiting_for_key = Unit {0}
Agrees _ _ = ⊥

end-Agrees :
    (count i : ℕ) (buf : ℕ → ℕ) (out typed : List ℕ)
    → i ≡ length typed
    → Shows buf typed
    → Agrees (line typed) (read_end count i buf out)
unfolding read_end
end-Agrees count i buf out typed e s =
    let last = buf ((count + 2 ^ 32 - 1) % 2 ^ 32) in
    elim (Bool-cases ((i == 10) && (not (last == newline) && not (last == carriage_return)))) [
      | inl full ↦ rw full (e, s)
      | inr other ↦ rw other (e, s)
    ]

Shows-drop : (buf : ℕ → ℕ) (typed : List ℕ) → Shows buf typed → Shows buf (drop_last typed)
Shows-drop buf [] s = tt
Shows-drop buf (_ ∷ typed) s = s.1

-- What a round does, for each kind of character.
module _ (c i : ℕ) (out : List ℕ) (small : i + 1 < 2 ^ 32) where
  round_eot : (c == eot_char) ≡ true → read_round c i out ≡ returns i out
  unfolding read_round
  round_eot e = rw e

  round_del :
      (c == eot_char) ≡ false
      → (c == del_char) ≡ true
      → (out' : List ℕ) × (read_round c i out ≡ goes_on (i - 1) out')
  unfolding read_round
  round_del e d = elim (Bool-cases (i == 0)) [
    | inl first ↦ (out, ground arith)
    | inr later ↦ (out ++ 8 ∷ 32 ∷ 8 ∷ [], ground arith)
  ]

  pub round_end :
      (c == eot_char) ≡ false
      → (c == del_char) ≡ false
      → ((c == newline) || (c == carriage_return)) ≡ true
      → read_round c i out ≡ returns (i + 1) (out ++ newline ∷ [])
  unfolding read_round
  round_end e d n = ground arith

  pub round_char :
      (c == eot_char) ≡ false
      → (c == del_char) ≡ false
      → ((c == newline) || (c == carriage_return)) ≡ false
      → read_round c i out ≡ goes_on (i + 1) (out ++ c ∷ [])
  unfolding read_round
  round_char e d n = ground arith

Shows-push :
    (buf : ℕ → ℕ) (c : ℕ) (typed : List ℕ)
    → Shows buf typed
    → Shows (update buf (length typed) c) (c ∷ typed)
Shows-push buf c typed s = (ground arith, Shows-update buf typed (length typed) c (omega arith) s)

loop-Agrees :
    (keys : List ℕ) (count : ℕ) (buf : ℕ → ℕ) (out typed : List ℕ)
    → count < 2 ^ 32
    → length typed ≤ count
    → Shows buf typed
    → Agrees (edit keys count typed) (read_loop keys count (length typed) buf out)
unfolding edit read_loop
loop-Agrees [] count buf out typed small fits s = elim (Bool-cases (ltb (length typed) count)) [
  | inl more ↦ rw more tt
  | inr full ↦ rw full (end-Agrees count (length typed) buf out typed refl s)
]
loop-Agrees (key ∷ keys) count buf out typed small fits s =
    elim (Bool-cases (ltb (length typed) count)) [
      | inl more ↦ elim (Bool-cases (c == eot_char)) [
        | inl e ↦
            rw (more, e, round_eot c i out (room more) e, read_loop)
              (refl, Shows-update buf typed i c (omega arith) s)
        | inr e ↦ elim (Bool-cases (c == del_char)) [
          | inl d ↦
              let (out', went) = round_del c i out (room more) e d in
              rw (more, e, d, went, read_loop)
                (rw (← length-drop_last typed) (
                  loop-Agrees keys count (update buf i c) out' (drop_last typed) small
                    (omega (arith, length-drop_last typed))
                    (Shows-drop (update buf i c) typed
                      (Shows-update buf typed i c (omega arith) s))))
          | inr d ↦ elim (Bool-cases ((c == newline) || (c == carriage_return))) [
            | inl n ↦
                rw (more, e, d, n, round_end c i out (room more) e d n, read_loop)
                  (omega arith, Shows-push buf c typed s)
            | inr n ↦
                rw (more, e, d, n, round_char c i out (room more) e d n, read_loop)
                  (rw add-one (
                    loop-Agrees keys count (update buf i c) (out ++ c ∷ []) (c ∷ typed) small
                      (ground arith) (Shows-push buf c typed s)))
          ]
        ]
      ]
      | inr full ↦ rw (full, read_loop) (end-Agrees count (length typed) buf out typed refl s)
    ]
  where
    c : ℕ
    c = key % 256

    i : ℕ
    i = length typed

    room : ltb (length typed) count ≡ true → i + 1 < 2 ^ 32
    room more = ground arith

-- For every sequence of keys `read_syscall`'s loop does what the line editor does: it waits for a key
-- exactly if the editor needs one more, and else returns the length of the edited line, which stands
-- at the start of the buffer.
pub read_loop-Agrees :
    (keys : List ℕ) (count : ℕ) (mem : ℕ → ℕ)
    → count < 2 ^ 32
    → Agrees (edit keys count []) (read_loop keys count 0 mem [])
read_loop-Agrees keys count mem small = loop-Agrees keys count mem [] [] small (omega arith) tt
