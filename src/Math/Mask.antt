-- ===== src/Math/Mask.antt =====
-- `&` with a mask of ones above zeros, and `|` with a bit below all others, as arithmetic.
use Prim.Native.Nat.{min, max, digits, bit_and-bitwise, bit_or-bitwise}
use native.Mathlib.Nat.{
  pow-suc, pow-succ', one-le-pow, div-mul-le_self, div-div-eq-div-mul, mul_comm,
}
use mathlib.Core.Path.{ap}
use embd_lab.Prelude.{
  ℕ, zero, suc, ◌+◌, ◌-◌, ◌*◌, ◌/◌, ◌%◌, ◌^◌, ◌<◌, ◌≤◌, ◌≡◌, refl, arith, bit_and, bit_or, ◌∙◌, sym,
}

abbrev nothing : ℕ → ℕ
nothing _ = 0

abbrev rest : ℕ → ℕ
rest b = b

-- The recursion of `&` with `k` ones.
and_ones : (k n a : ℕ) → a < 2 ^ k → a ≤ n → digits nothing min n a (2 ^ k - 1) ≡ a
and_ones k zero zero small enough = refl
and_ones k (suc n) zero small enough = refl
and_ones k zero (suc a) small enough = absurd (omega arith)
and_ones zero (suc n) (suc a) small enough = absurd (omega arith)
and_ones (suc k) (suc n) (suc a) small enough =
    let half : (2 ^ suc k - 1) / 2 ≡ 2 ^ k - 1 = omega (arith, pow-suc 2 k, one-le-pow k 2) in
    let odd : (2 ^ suc k - 1) % 2 ≡ 1 = omega (arith, pow-suc 2 k, one-le-pow k 2) in
    rw (half, odd)
      (omega (arith, and_ones k n (suc a / 2) (omega (arith, pow-suc 2 k)) (omega arith)))

double : (x s : ℕ) → x * 2 ^ suc s ≡ 2 * (x * 2 ^ s)
double x s = omega (arith, ap (λ (p : ℕ). x * p) (pow-suc 2 s))

-- The recursion of `&` with `k` ones above `s` zeros.
and_field :
    (s k n a : ℕ)
    → a < 2 ^ s * 2 ^ k
    → a ≤ n
    → digits nothing min n a ((2 ^ k - 1) * 2 ^ s) ≡ a / 2 ^ s * 2 ^ s
and_field zero k n a small enough =
    let e : (2 ^ k - 1) * 2 ^ 0 ≡ 2 ^ k - 1 = omega arith in
    rw e (omega (arith, and_ones k n a (omega arith) enough))
and_field (suc s) k zero zero small enough = omega (arith, div-mul-le_self 0 (2 ^ suc s))
and_field (suc s) k (suc n) zero small enough = omega (arith, div-mul-le_self 0 (2 ^ suc s))
and_field (suc s) k zero (suc a) small enough = absurd (omega arith)
and_field (suc s) k (suc n) (suc a) small enough =
    let half : (2 ^ k - 1) * 2 ^ suc s / 2 ≡ (2 ^ k - 1) * 2 ^ s =
      omega (arith, double (2 ^ k - 1) s) in
    let even : (2 ^ k - 1) * 2 ^ suc s % 2 ≡ 0 = omega (arith, double (2 ^ k - 1) s) in
    let down : suc a / 2 < 2 ^ s * 2 ^ k =
      omega (arith, double (2 ^ k) s, mul_comm (2 ^ k) (2 ^ s), mul_comm (2 ^ k) (2 ^ suc s)) in
    let split : suc a / 2 / 2 ^ s ≡ suc a / 2 ^ suc s =
      div-div-eq-div-mul (suc a) 2 (2 ^ s) ∙ ap (λ (p : ℕ). suc a / p) (sym (pow-succ' 2 s)) in
    rw (half, even, and_field s k n (suc a / 2) down (omega arith), split)
      (omega (arith, double (suc a / 2 ^ suc s) s))

-- The recursion of `|` with nothing.
or_zero : (n a : ℕ) → a ≤ n → digits rest max n a 0 ≡ a
or_zero zero zero enough = refl
or_zero (suc n) zero enough = refl
or_zero zero (suc a) enough = absurd (omega arith)
or_zero (suc n) (suc a) enough = omega (arith, or_zero n (suc a / 2) (omega arith))

-- The recursion of `|` with a bit below all those of the other number.
or_below : (i n a q : ℕ) → a ≡ q * 2 ^ suc i → a ≤ n → digits rest max n a (2 ^ i) ≡ a + 2 ^ i
or_below i zero zero q above enough = omega arith
or_below i (suc n) zero q above enough = omega arith
or_below i zero (suc a) q above enough = absurd (omega arith)
or_below zero (suc n) (suc a) q above enough = omega (arith, or_zero n (suc a / 2) (omega arith))
or_below (suc i) (suc n) (suc a) q above enough =
    let half : 2 ^ suc i / 2 ≡ 2 ^ i = omega (arith, pow-suc 2 i) in
    let even : 2 ^ suc i % 2 ≡ 0 = omega (arith, pow-suc 2 i) in
    let down : suc a / 2 ≡ q * 2 ^ suc i = omega (arith, double q (suc i)) in
    rw (half, even) (omega (arith, or_below i n (suc a / 2) q down (omega arith), pow-suc 2 i))

-- `&` with `k` ones above `s` zeros keeps what lies above bit `s`.
pub bit_and_field :
    (s k a : ℕ) → a < 2 ^ s * 2 ^ k → bit_and a ((2 ^ k - 1) * 2 ^ s) ≡ a / 2 ^ s * 2 ^ s
bit_and_field s k a small = simp bit_and-bitwise (and_field s k a a small (omega arith))

-- `|` with a bit below all those of `a` adds it.
pub bit_or_below : (i a q : ℕ) → a ≡ q * 2 ^ suc i → bit_or a (2 ^ i) ≡ a + 2 ^ i
bit_or_below i a q above = simp bit_or-bitwise (or_below i a a q above (omega arith))
