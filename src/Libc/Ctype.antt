-- ===== src/Libc/Ctype.antt =====
-- The classes of characters.
use embd_lab.Prelude.{ℕ, ◌+◌, ◌≡◌, refl, ℤ, pos, negsuc, Bool, false, arith, if◌then◌else◌}
use embd_lab.Libc.{
  iscntrl, isdigit, isgraph, islower, isupper, isalpha, isalnum, ispunct, toupper, tolower, is_char,
}

abbrev pub one_if : Bool → ℕ
one_if b = if b then 1 else 0

-- Every `int` is exactly one of a control code, a blank, a small letter, a capital letter, a digit and
-- a punctuation mark, where each value outside 32 to 126 counts as a control code.
pub classes-partition :
    (c : ℤ)
    → one_if (iscntrl c)
        + one_if (is_char b' ' c)
        + one_if (islower c)
        + one_if (isupper c)
        + one_if (isdigit c)
        + one_if (ispunct c)
      ≡ 1
unfolding iscntrl islower isupper isdigit ispunct isgraph isalnum isalpha
classes-partition (pos c) = ground arith
classes-partition (negsuc c) = refl

-- Changing the case twice is the same as changing it once, and leaves no letter of the other case.
pub case-changes :
    (c : ℤ)
    → (tolower (toupper c) ≡ tolower c)
      × (toupper (tolower c) ≡ toupper c)
      × (islower (toupper c) ≡ false)
      × (isupper (tolower c) ≡ false)
unfolding toupper tolower islower isupper
case-changes (pos c) = ground arith
case-changes (negsuc c) = (refl, refl, refl, refl)
