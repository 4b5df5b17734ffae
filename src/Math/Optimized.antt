-- ===== src/Math/Optimized.antt =====
-- The two variants of `ilog2` are the same function.
use native.Mathlib.Nat.{
  pow-suc, pow-succ', mul_comm, lt-div-mul-add, mul_assoc, one-le-pow, le-div_iff_mul-le,
  div-lt_iff_lt-mul, pow-le-pow_right,
}
use embd_lab.Prelude.{
  ℕ, zero, suc, ◌+◌, ◌*◌, ◌/◌, ◌^◌, ◌<◌, ◌≤◌, ◌≡◌, refl, inl, inr, ap, ◌∙◌, some, arith, ◌==◌,
  Bool-cases, ltb, bit_and, bit_or, sym,
}
use embd_lab.Math.{mask_of, shift_of, halve, halve_loop, ilog2, ilog2_loop, ilog2_ndebug}
use embd_lab.Math.Mask.{bit_and_field, bit_or_below}
use embd_lab.Math.Log.{IsLog, ilog2-IsLog}

-- A mask is as many ones as zeros below them, and the shift is that number.
masks :
    (i v : ℕ)
    → i < 5
    → v < 2 ^ shift_of i * 2 ^ shift_of i
    → bit_and v (mask_of i) ≡ v / 2 ^ shift_of i * 2 ^ shift_of i
masks zero v small h = bit_and_field 1 1 v h
masks (suc zero) v small h = bit_and_field 2 2 v h
masks (suc (suc zero)) v small h = bit_and_field 4 4 v h
masks (suc (suc (suc zero))) v small h = bit_and_field 8 8 v h
masks (suc (suc (suc (suc zero)))) v small h = bit_and_field 16 16 v h
masks (suc (suc (suc (suc (suc i))))) v small h = absurd (omega arith)

shifts : (i q : ℕ) → i < 5 → bit_or (q * 2 ^ suc i) (shift_of i) ≡ q * 2 ^ suc i + shift_of i
shifts zero q small = bit_or_below 0 _ q refl
shifts (suc zero) q small = bit_or_below 1 _ q refl
shifts (suc (suc zero)) q small = bit_or_below 2 _ q refl
shifts (suc (suc (suc zero))) q small = bit_or_below 3 _ q refl
shifts (suc (suc (suc (suc zero)))) q small = bit_or_below 4 _ q refl
shifts (suc (suc (suc (suc (suc i))))) q small = absurd (omega arith)

pow-add : (a b : ℕ) → 2 ^ (a + b) ≡ 2 ^ a * 2 ^ b
pow-add a zero = let e : a + 0 ≡ a = omega arith in rw e (omega arith)
pow-add a (suc b) =
    let e : a + suc b ≡ suc (a + b) = omega arith in
    rw (e, pow-suc 2 (a + b), pow-add a b, pow-suc 2 b) (mul_assoc (2 ^ a) (2 ^ b) 2)

-- Shifting right by `d` takes `d` off the number of the highest bit.
IsLog-shift : (v d l : ℕ) → IsLog (v / 2 ^ d) l → IsLog v (l + d)
IsLog-shift v d l is_log =
    let pos_d = one-le-pow d 2 (omega arith) in
    let e : suc (l + d) ≡ suc l + d = omega arith in
    record {
      lower = rw pow-add ((le-div_iff_mul-le pos_d).0 is_log.lower);
      upper = rw (e, pow-add (suc l) d) ((div-lt_iff_lt-mul pos_d).0 is_log.upper);
    }

IsLog-below : (x a b : ℕ) → IsLog x a → IsLog x b → a < b → a ≡ b
IsLog-below x a b p q below = absurd (
    omega
      (arith, p.upper, q.lower, pow-le-pow_right {n = 2} (omega arith) {i = suc a} {j = b} below))

-- There is one number of the highest bit.
IsLog-eq : (x a b : ℕ) → IsLog x a → IsLog x b → a ≡ b
IsLog-eq x a b p q = elim (Bool-cases (ltb a b)) [
  | inl below ↦ IsLog-below x a b p q (ground arith)
  | inr above ↦ elim (Bool-cases (ltb b a)) [
    | inl below ↦ sym (IsLog-below x b a q p (ground arith))
    | inr same ↦ ground arith
  ]
]

shift-pow : (i : ℕ) → i < 5 → shift_of i ≡ 2 ^ i
shift-pow zero few = refl
shift-pow (suc zero) few = refl
shift-pow (suc (suc zero)) few = refl
shift-pow (suc (suc (suc zero))) few = refl
shift-pow (suc (suc (suc (suc zero)))) few = refl
shift-pow (suc (suc (suc (suc (suc i))))) few = absurd (omega arith)

double : (q i : ℕ) → q * 2 ^ suc i ≡ 2 * q * 2 ^ i
double q i =
    rw (pow-succ' 2 i) (sym (mul_assoc q 2 (2 ^ i)) ∙ ap (λ (x : ℕ). x * 2 ^ i) (mul_comm q 2))

some_quotient : (v p : ℕ) → 0 < v / p * p → 0 < v / p
some_quotient v p high = elim (Bool-cases (v / p == 0)) [
  | inl none_left ↦
      let e : v / p ≡ 0 = ground arith in
      let nothing : 0 < 0 * p = rw e at high in absurd (omega (arith, nothing))
  | inr some_left ↦ ground arith
]

square : (i : ℕ) → 2 ^ 2 ^ suc i ≡ 2 ^ 2 ^ i * 2 ^ 2 ^ i
square i =
    let e : 2 ^ suc i ≡ 2 ^ i + 2 ^ i = omega (arith, pow-suc 2 i) in rw e (pow-add (2 ^ i) (2 ^ i))

-- What a round leaves.
record Halved (i v r v' r' : ℕ) : Type 0 where
  added : ℕ
  quotient : ℕ
  result : r' ≡ r + added
  above : r' ≡ quotient * 2 ^ i
  positive : 0 < v'
  small : v' < 2 ^ shift_of i
  logs : (l : ℕ) → IsLog v' l → IsLog v (l + added)

halve-Halved :
    (i v q : ℕ)
    → i < 5
    → 0 < v
    → v < 2 ^ shift_of i * 2 ^ shift_of i
    → let (v', r') = halve i v (q * 2 ^ suc i) in Halved i v (q * 2 ^ suc i) v' r'
unfolding halve
halve-Halved i v q few positive h =
    let p = 2 ^ shift_of i in
    let pos_p : 0 < p = one-le-pow (shift_of i) 2 (omega arith) in
    let masked = masks i v few h in
    elim (Bool-cases (bit_and v (mask_of i) == 0)) [
      | inl none_set ↦
          let low : v / p * p ≡ 0 = ground (arith, masked) in
          rw none_set (record {
            added = 0;
            quotient = 2 * q;
            result = omega arith;
            above = double q i;
            positive = positive;
            small = omega (arith, low, lt-div-mul-add {a = v} pos_p);
            logs = λ l log. let e : l + 0 ≡ l = omega arith in rw e log;
          })
      | inr some_set ↦
          let high : 0 < v / p * p = ground (arith, masked) in
          rw some_set (record {
            added = shift_of i;
            quotient = 2 * q + 1;
            result = shifts i q few;
            above = shifts i q few ∙ omega (arith, double q i, shift-pow i few);
            positive = some_quotient v p high;
            small = (div-lt_iff_lt-mul pos_p).1 h;
            logs = λ l. IsLog-shift v (shift_of i) l;
          })
    ]

halve_loop-IsLog :
    (rounds v q : ℕ)
    → rounds ≤ 5
    → 0 < v
    → v < 2 ^ 2 ^ rounds
    → (l : ℕ) × (halve_loop rounds v (q * 2 ^ rounds) ≡ q * 2 ^ rounds + l) × IsLog v l
unfolding halve_loop
halve_loop-IsLog zero v q few positive h = (0, omega arith, record { lower = positive; upper = h })
halve_loop-IsLog (suc i) v q few positive h =
    let shift = shift-pow i (omega arith) in
    let h' : v < 2 ^ shift_of i * 2 ^ shift_of i = rw shift (rw (square i) at h) in
    let round = halve-Halved i v q (omega arith) positive h' in
    let small : (halve i v (q * 2 ^ suc i)).0 < 2 ^ 2 ^ i = rw shift at round.small in
    let (l, e, log) = halve_loop-IsLog i _ round.quotient (omega arith) round.positive small in
    (
      l + round.added,
      ap (λ r. halve_loop i (halve i v (q * 2 ^ suc i)).0 r) round.above
          ∙ e
          ∙ omega (arith, round.above, round.result),
      round.logs l log,
    )

both_zero : ilog2 0 ≡ some (halve_loop 5 0 0)
unfolding ilog2 ilog2_loop halve_loop halve
both_zero = refl

-- For every 32-bit number the two variants of `ilog2` give the same.
pub ilog2_ndebug-eq : (v : ℕ) → v < 2 ^ 32 → ilog2 v ≡ some (ilog2_ndebug v)
unfolding ilog2_ndebug
ilog2_ndebug-eq v h = elim (Bool-cases (v == 0)) [
  | inl is_zero ↦ let e : v ≡ 0 = ground arith in rw e both_zero
  | inr positive ↦
      let (a, ea, loga) = ilog2-IsLog v (ground arith) h in
      let (b, eb, logb) = halve_loop-IsLog 5 v 0 (omega arith) (ground arith) h in
      ea ∙ ap some (IsLog-eq v a b loga logb ∙ sym (eb ∙ omega arith))
]
