-- ===== src/Libc/Number.antt =====
-- `atol` reads what decimal notation writes.
use embd_lab.Prelude.{
  ℕ, zero, suc, ◌+◌, ◌-◌, ◌*◌, ◌/◌, ◌%◌, ◌^◌, ◌<◌, ◌≡◌, inl, inr, refl, ◌∙◌, arith, ltb, pos, Bool,
  true, false, List, [], ◌∷◌, ◌++◌, if◌then◌else◌, Bool-cases, none, some,
}
use mathlib.Core.List.{append_assoc}
use native.Mathlib.Nat.{pow-suc}
use embd_lab.Libc.{isdigit, atol_loop, atol}

-- A number below `10 ^ digits` in decimal notation, the first digit first.
pub decimal : (digits : ℕ) → ℕ → List ℕ
decimal zero n = []
decimal (suc digits) n =
    let front = decimal digits (n / 10) in
    if ltb n 10 then (b'0' + n) ∷ [] else front ++ ((b'0' + n % 10) ∷ [])

-- The string does not go on with a digit.
abbrev pub ends_number : List ℕ → Bool
ends_number [] = true
ends_number (c ∷ str) = if isdigit (pos c) then false else true

-- The numbers that `atol` can read: 48 is the code of '0'.
abbrev pub is_read : ℕ → Bool
is_read n = ltb (n + b'0') (2 ^ 31)

atol_loop-digit :
    (x n : ℕ) (str : List ℕ)
    → x < 10
    → atol_loop ((b'0' + x) ∷ str) n
      ≡ (if is_read (n * 10 + x) then atol_loop str (n * 10 + x) else none)
unfolding atol_loop isdigit
atol_loop-digit x n str small =
    let value : n * 10 + (b'0' + x) - b'0' ≡ n * 10 + x = omega arith in
    let sum : n * 10 + (b'0' + x) ≡ n * 10 + x + b'0' = omega arith in
    rw value (rw sum (ground arith))

some_digits : (digits n : ℕ) → 0 < n → n < 10 ^ digits → 0 < digits
some_digits zero n positive small = absurd (omega arith)
some_digits (suc digits) n positive small = omega arith

-- The loop ends before what is no digit.
stops : (n : ℕ) (str : List ℕ) → ends_number str ≡ true → atol_loop str n ≡ some (pos n)
unfolding atol_loop
stops n [] ends = refl
stops n (c ∷ str) ends = ground arith

atol_loop-decimal :
    (digits n : ℕ) (str : List ℕ)
    → n < 10 ^ digits
    → 0 < digits
    → atol_loop (decimal digits n ++ str) 0 ≡ (if is_read n then atol_loop str n else none)
unfolding decimal
atol_loop-decimal zero n str h positive = absurd (omega arith)
atol_loop-decimal (suc digits) n str h positive = elim (Bool-cases (ltb n 10)) [
  | inl small ↦
      let e : 0 * 10 + n ≡ n = omega arith in
      rw small (rw e at (atol_loop-digit n 0 str (ground arith)))
  | inr big ↦
      let last = (b'0' + n % 10) ∷ [] in
      let split : (decimal digits (n / 10) ++ last) ++ str
          ≡ decimal digits (n / 10) ++ (last ++ str) =
        append_assoc (decimal digits (n / 10)) last str in
      let more : 0 < n / 10 = ground arith in
      let fewer : n / 10 < 10 ^ digits = omega (arith, pow-suc 10 digits) in
      let front =
        atol_loop-decimal digits (n / 10) (last ++ str) fewer
          (some_digits digits (n / 10) more fewer) in
      let e : n / 10 * 10 + n % 10 ≡ n = omega arith in
      let digit : atol_loop (last ++ str) (n / 10) ≡ (if is_read n then atol_loop str n else none) =
        rw e at (atol_loop-digit (n % 10) (n / 10) str (omega arith)) in
      rw (big, split, front, digit)
        (elim (Bool-cases (is_read n)) [
          | inl fits ↦ let fits₁ : is_read (n / 10) ≡ true = ground arith in rw (fits, fits₁) refl
          | inr over ↦ rw over (ground arith)
        ])
]

-- Where a number below 10 ^ 10 stands in decimal notation at the start of a string, and no further
-- digit follows, `atol` returns that number if it is below 2 ^ 31 - 48, and else its arithmetic
-- overflows.
pub atol-decimal :
    (n : ℕ) (str : List ℕ)
    → n < 10 ^ 10
    → ends_number str ≡ true
    → atol (decimal 10 n ++ str) ≡ (if ltb n (2 ^ 31 - 48) then some (pos n) else none)
unfolding atol
atol-decimal n str fits ends =
    let same : is_read n ≡ ltb n (2 ^ 31 - 48) = ground arith in
    atol_loop-decimal 10 n str fits (omega arith) ∙ rw (stops n str ends, same) refl
