-- ===== src/Math.antt =====
-- kernel/math.c, with the `ilog2` of both builds, and kernel/memcheck.c.
pub mod Log
pub mod Mask
pub mod Optimized
pub mod Address
use embd_lab.Prelude.{
  ℕ, zero, suc, ◌+◌, ◌/◌, ◌%◌, ◌^◌, Bool, true, false, Option, none, some, ◌==◌, ltb, leb, ◌||◌,
  if◌then◌else◌, bit_and, bit_or,
}

-- The loop of `sum_region`, with the words left and the index.
unfoldable pub sum_loop : (words i : ℕ) → (ℕ → ℕ) → (result : ℕ) → ℕ
sum_loop zero i buf result = result
sum_loop (suc words) i buf result = sum_loop words (i + 1) buf ((result + buf i) % 2 ^ 32)

unfoldable pub sum_region : (ℕ → ℕ) → (num_words : ℕ) → ℕ
sum_region buf num_words = sum_loop num_words 0 buf 0

-- `while (x >>= 1) r++;`. `none` is out of fuel.
unfoldable pub ilog2_loop : (fuel : ℕ) → (x r : ℕ) → Option ℕ
ilog2_loop zero x r = none
ilog2_loop (suc fuel) x r =
    let more = ilog2_loop fuel (x / 2) ((r + 1) % 2 ^ 32) in if x / 2 == 0 then some r else more

-- A 32-bit number is halved at most 32 times.
unfoldable pub ilog2 : ℕ → Option ℕ
ilog2 x = ilog2_loop 32 x 0

-- The tables of the `ilog2` with NDEBUG, for the index `i`; past their end they are not read.
abbrev pub mask_of : ℕ → ℕ
mask_of zero = 0x2
mask_of (suc zero) = 0xC
mask_of (suc (suc zero)) = 0xF0
mask_of (suc (suc (suc zero))) = 0xFF00
mask_of (suc (suc (suc (suc i)))) = 0xFFFF0000

abbrev pub shift_of : ℕ → ℕ
shift_of zero = 1
shift_of (suc zero) = 2
shift_of (suc (suc zero)) = 4
shift_of (suc (suc (suc zero))) = 8
shift_of (suc (suc (suc (suc i)))) = 16

-- A round of its loop, on `v` and `r`.
unfoldable pub halve : (i : ℕ) → (v r : ℕ) → ℕ × ℕ
halve i v r =
    if bit_and v (mask_of i) == 0 then (v, r) else (v / 2 ^ shift_of i, bit_or r (shift_of i))

-- Its loop, with the rounds left.
unfoldable pub halve_loop : (rounds : ℕ) → (v r : ℕ) → ℕ
halve_loop zero v r = r
halve_loop (suc i) v r = let (v', r') = halve i v r in halve_loop i v' r'

-- `ilog2` with NDEBUG.
unfoldable pub ilog2_ndebug : ℕ → ℕ
ilog2_ndebug v = halve_loop 5 v 0

unfoldable pub valid_addr : (start count base bound : ℕ) → Bool
valid_addr start count base bound =
    let mem_end = (start + count) % 2 ^ 32 in
    if ltb start base || leb bound start
    then false
    else if ltb mem_end start || ltb bound mem_end
    then false
    else true
