-- ===== src/Math/Log.antt =====
-- What `sum_region` and `ilog2` compute.
use native.Mathlib.Nat.{pow-suc}
use embd_lab.Prelude.{
  ℕ, zero, suc, ◌+◌, ◌/◌, ◌%◌, ◌^◌, ◌<◌, ◌≤◌, ◌≡◌, inl, inr, ap, ◌∙◌, some, arith, ◌==◌, Bool-cases,
}
use embd_lab.Math.{sum_loop, sum_region, ilog2_loop, ilog2}

-- The sum of the words without wrap-around.
pub total : (n : ℕ) → (ℕ → ℕ) → ℕ
total zero buf = 0
total (suc n) buf = total n buf + buf n

total-first :
    (n i : ℕ) (buf : ℕ → ℕ)
    → total (suc n) (λ j. buf (i + j)) ≡ buf i + total n (λ j. buf (i + 1 + j))
unfolding total
total-first zero i buf = let e : i + 0 ≡ i = omega arith in rw e (omega arith)
total-first (suc n) i buf =
    let e : i + suc n ≡ i + 1 + n = omega arith in rw e (omega (arith, total-first n i buf))

sum_loop-total :
    (n i : ℕ) (buf : ℕ → ℕ) (result : ℕ)
    → result < 2 ^ 32
    → sum_loop n i buf result ≡ (result + total n (λ j. buf (i + j))) % 2 ^ 32
unfolding sum_loop
sum_loop-total zero i buf result h = unfold total in omega arith
sum_loop-total (suc n) i buf result h = omega (
  arith,
  sum_loop-total n (i + 1) buf ((result + buf i) % 2 ^ 32) (omega arith),
  total-first n i buf,
)

-- `sum_region` is the sum of the words modulo 2 ^ 32.
pub sum_region-total :
    (buf : ℕ → ℕ) (n : ℕ) → sum_region buf n ≡ total n (λ j. buf (0 + j)) % 2 ^ 32
unfolding sum_region
sum_region-total buf n = omega (arith, sum_loop-total n 0 buf 0 (omega arith))

-- `r` is the number of the highest bit of `x` that is set.
pub record IsLog (x r : ℕ) : Type 0 where
  pub lower : 2 ^ r ≤ x
  pub upper : x < 2 ^ suc r

ilog2_loop-IsLog :
    (fuel x r : ℕ)
    → 0 < x
    → x < 2 ^ fuel
    → r + fuel ≤ 32
    → (l : ℕ) × (ilog2_loop fuel x r ≡ some (r + l)) × IsLog x l
unfolding ilog2_loop
ilog2_loop-IsLog zero x r pos_x h small = absurd (omega arith)
ilog2_loop-IsLog (suc fuel) x r pos_x h small = elim (Bool-cases (x / 2 == 0)) [
  | inl last ↦
      let one : x ≡ 1 = ground arith in
      (0, rw last (ap some (omega arith)), record { lower = omega arith; upper = omega arith })
  | inr more ↦
      let (l, e, is_log) =
        ilog2_loop-IsLog fuel (x / 2) ((r + 1) % 2 ^ 32) (ground arith)
          (omega (arith, pow-suc 2 fuel)) (omega arith) in
      (
        suc l,
        rw more (e ∙ ap some (omega arith)),
        record {
          lower = omega (arith, is_log.lower, pow-suc 2 l);
          upper = omega (arith, is_log.upper, pow-suc 2 (suc l));
        },
      )
]

-- For every 32-bit number but 0 the loop of `ilog2` ends, with the number of the highest bit set.
pub ilog2-IsLog : (x : ℕ) → 0 < x → x < 2 ^ 32 → (l : ℕ) × (ilog2 x ≡ some l) × IsLog x l
unfolding ilog2
ilog2-IsLog x pos_x h =
    let (l, e, is_log) = ilog2_loop-IsLog 32 x 0 pos_x h (omega arith) in
    (l, e ∙ ap some (omega arith), is_log)
