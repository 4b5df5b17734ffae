-- ===== src/Io/Write.antt =====
-- What `write_syscall` prints.
use embd_lab.Prelude.{
  ℕ, zero, suc, ◌+◌, ◌-◌, ◌%◌, ◌^◌, ◌<◌, ◌≡◌, refl, ◌∙◌, ap, [], ◌∷◌, ◌++◌, arith, ◌==◌,
  if◌then◌else◌, length, length-append,
}
use embd_lab.Io.{carriage_return, newline, put_chars, written}

pub length-put_chars : (n i : ℕ) (mem : ℕ → ℕ) → length (put_chars n i mem) ≡ n
unfolding put_chars
length-put_chars zero i mem = refl
length-put_chars (suc n) i mem = ap suc (length-put_chars n (i + 1) mem)

pub put_chars-last :
    (n i : ℕ) (mem : ℕ → ℕ) → put_chars (suc n) i mem ≡ put_chars n i mem ++ mem (i + n) ∷ []
unfolding put_chars
put_chars-last zero i mem = let e : i + 0 ≡ i = omega arith in rw e
put_chars-last (suc n) i mem =
    let e : i + suc n ≡ i + 1 + n = omega arith in
    rw e (ap (◌∷◌ (mem i)) (put_chars-last n (i + 1) mem))

-- A non-empty buffer is printed byte for byte, except that a carriage return in the last place is
-- printed as a newline.
pub written_lem :
    (n : ℕ) (mem : ℕ → ℕ)
    → suc n < 2 ^ 32
    → written (suc n) mem
      ≡ put_chars n 0 mem ++ (if mem n == carriage_return then newline else mem n) ∷ []
unfolding written
written_lem n mem h =
    let at : (suc n + 2 ^ 32 - 1) % 2 ^ 32 ≡ n = omega arith in
    let at_end : 0 + n ≡ n = omega arith in ground (arith, put_chars-last n 0 mem)

-- An empty buffer behind a carriage return is printed as 2 ^ 32 characters.
pub written_empty :
    (mem : ℕ → ℕ) → mem (2 ^ 32 - 1) ≡ carriage_return → length (written 0 mem) ≡ 2 ^ 32
unfolding written
written_empty mem h = rw h (
    length-append (put_chars (2 ^ 32 - 1) 0 mem) (newline ∷ [])
    ∙ omega (arith, length-put_chars (2 ^ 32 - 1) 0 mem))
