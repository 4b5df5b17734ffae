-- ===== src/Prelude/Bits.antt =====
-- Single bits of a byte. Facts about every byte are checked by evaluation over all 256 values.
use Prim.Native.Nat.{ℕ, zero, suc, ◌-◌, ◌/◌, ◌%◌, ◌^◌, ◌<◌, bit_and, bit_or}
use mathlib.Core.Path.{◌≡◌, refl}
use mathlib.Core.Bool.{Bool, true, false, ◌&&◌, ◌||◌, not}
use native.Mathlib.Omega.{arith}
use embd_lab.Prelude.Tests.{◌==◌, ==_iff, if◌then◌else◌}

-- Bit `x` of `b`.
unfoldable pub bit : ℕ → ℕ → Bool
bit b x = b / 2 ^ x % 2 == 1

-- `b | (1 << x)`, stored in a `uint8_t`.
unfoldable pub set_bit : ℕ → ℕ → ℕ
set_bit b x = bit_or b (2 ^ x) % 256

-- `b & (~(1 << x))`, stored in a `uint8_t`; `~` is taken of a 32-bit `int`.
unfoldable pub clear_bit : ℕ → ℕ → ℕ
clear_bit b x = bit_and b (2 ^ 32 - 1 - 2 ^ x) % 256

-- `p` holds of the numbers under `bound`.
unfoldable pub for_each : (bound : ℕ) → (ℕ → Bool) → Bool
for_each zero p = true
for_each (suc last) p = if p last then for_each last p else false

-- A run of `for_each` that succeeds has tested `i`.
pub for_each_at :
    (bound : ℕ) (p : ℕ → Bool) (i : ℕ) → for_each bound p ≡ true → i < bound → p i ≡ true
unfolding for_each
for_each_at zero p i tested small = absurd (omega arith)
for_each_at (suc last) p i tested small = ground (arith, for_each_at last p i)

same : Bool → Bool → Bool
same true b = b
same false b = not b

same-eq : (a b : Bool) → same a b ≡ true → a ≡ b
unfolding same
same-eq true b h = ground arith
same-eq false b h = ground arith

-- A test of three bytes' worth of arguments: every byte, and two bit numbers.
module _ (p : ℕ → ℕ → ℕ → Bool) where
  each : Bool
  each = for_each 256 λ b. for_each 8 λ x. for_each 8 λ z. p b x z

  each_sound : each ≡ true → (b x z : ℕ) → b < 256 → x < 8 → z < 8 → p b x z ≡ true
  unfolding each
  each_sound h b x z hb hx hz =
      for_each_at 8 (λ z. p b x z) z
        (for_each_at 8 (λ x. for_each 8 λ z. p b x z) x
          (for_each_at 256 (λ b. for_each 8 λ x. for_each 8 λ z. p b x z) b h hb) hx)
        hz

set_bit_table : each (λ b x z. same (bit (set_bit b x) z) ((x == z) || bit b z)) ≡ true
unfolding each for_each same bit set_bit
set_bit_table = refl

clear_bit_table : each (λ b x z. same (bit (clear_bit b x) z) (not (x == z) && bit b z)) ≡ true
unfolding each for_each same bit clear_bit
clear_bit_table = refl

module _ (b x z : ℕ) (hb : b < 256) (hx : x < 8) (hz : z < 8) where
  pub bit-set_bit : bit (set_bit b x) z ≡ ((x == z) || bit b z)
  bit-set_bit = same-eq _ _ (each_sound _ set_bit_table b x z hb hx hz)

  pub bit-clear_bit : bit (clear_bit b x) z ≡ (not (x == z) && bit b z)
  bit-clear_bit = same-eq _ _ (each_sound _ clear_bit_table b x z hb hx hz)

pub set_bit-lt : (b x : ℕ) → set_bit b x < 256
unfolding set_bit
set_bit-lt b x = omega arith

pub clear_bit-lt : (b x : ℕ) → clear_bit b x < 256
unfolding clear_bit
clear_bit-lt b x = omega arith

zero_table : for_each 8 (λ z. same (bit 0 z) false) ≡ true
unfolding for_each same bit
zero_table = refl

pub bit-zero : (z : ℕ) → z < 8 → bit 0 z ≡ false
bit-zero z hz = same-eq _ _ (for_each_at 8 _ z zero_table hz)

clear_zero_table : for_each 8 (λ x. clear_bit 0 x == 0) ≡ true
unfolding for_each clear_bit
clear_zero_table = refl

pub clear_bit-zero : (b x : ℕ) → x < 8 → b ≡ 0 → clear_bit b x ≡ 0
clear_bit-zero b x hx e = rw e ((==_iff _ 0).0 (for_each_at 8 _ x clear_zero_table hx))
