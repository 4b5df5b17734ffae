-- ===== src/Libc.antt =====
-- Parts of the C library: the predicates of include/ctype.h in kernel and tasks/libc, and
-- tasks/libc/string/memmove.c and tasks/libc/stdlib/atoi.c.
pub mod Ctype
pub mod Memory
pub mod Number
use embd_lab.Prelude.{
  ℕ, zero, suc, ◌+◌, ◌-◌, ◌*◌, ◌%◌, ◌^◌, ℤ, pos, negsuc, Bool, true, false, ◌&&◌, ◌||◌, not, ◌==◌,
  leb, ltb, if◌then◌else◌, update, List, [], ◌∷◌, Option, none, some,
}

-- `a <= c` for an `int` and a character.
abbrev pub from : ℕ → ℤ → Bool
from a (pos c) = leb a c
from a (negsuc _) = false

-- `c <= a`.
abbrev pub upto : ℕ → ℤ → Bool
upto a (pos c) = leb c a
upto a (negsuc _) = true

abbrev pub is_char : ℕ → ℤ → Bool
is_char a (pos c) = c == a
is_char a (negsuc _) = false

unfoldable pub isascii : ℤ → Bool
isascii c = from 0 c && upto 127 c

unfoldable pub iscntrl : ℤ → Bool
iscntrl c = not (from b' ' c) || not (upto 126 c)

unfoldable pub isdigit : ℤ → Bool
isdigit c = from b'0' c && upto b'9' c

unfoldable pub isgraph : ℤ → Bool
isgraph c = not (upto b' ' c) && upto 126 c

unfoldable pub islower : ℤ → Bool
islower c = from b'a' c && upto b'z' c

unfoldable pub isprint : ℤ → Bool
isprint c = from b' ' c && upto 126 c

unfoldable pub isspace : ℤ → Bool
isspace c =
    is_char b' ' c
    || is_char 12 c
    || is_char 10 c
    || is_char 10 c
    || is_char 13 c
    || is_char 9 c
    || is_char 11 c

unfoldable pub isupper : ℤ → Bool
isupper c = from b'A' c && upto b'Z' c

unfoldable pub isxdigit : ℤ → Bool
isxdigit c = isdigit c || (from b'A' c && upto b'F' c) || (from b'a' c && upto b'f' c)

unfoldable pub isalpha : ℤ → Bool
isalpha c = islower c || isupper c

unfoldable pub isalnum : ℤ → Bool
isalnum c = isalpha c || isdigit c

unfoldable pub ispunct : ℤ → Bool
ispunct c = isgraph c && not (isalnum c)

-- `c - a + b`, for a character `c` from `a` on.
abbrev pub shifted : (a b : ℕ) → ℤ → ℤ
shifted a b (pos c) = pos (c + b - a)
shifted a b (negsuc c) = negsuc c

unfoldable pub toupper : ℤ → ℤ
unfolding islower
toupper c = if islower c then shifted b'a' b'A' c else c

unfoldable pub tolower : ℤ → ℤ
unfolding isupper
tolower c = if isupper c then shifted b'A' b'a' c else c

-- `d[i]` of a `char *`.
abbrev pub cell : ℕ → ℕ → ℕ
cell d i = (d + i) % 2 ^ 32

-- The loop from 0 up, with the rounds left.
unfoldable pub copy_up : (rounds i : ℕ) → (d s : ℕ) → (ℕ → ℕ) → ℕ → ℕ
copy_up zero i d s memory = memory
copy_up (suc rounds) i d s memory =
    copy_up rounds (i + 1) d s (update memory (cell d i) (memory (cell s i)))

-- The loop from `count` down; `i - 1` is the index.
unfoldable pub copy_down : (i : ℕ) → (d s : ℕ) → (ℕ → ℕ) → ℕ → ℕ
copy_down zero d s memory = memory
copy_down (suc i) d s memory = copy_down i d s (update memory (cell d i) (memory (cell s i)))

-- What the memory is after the call.
unfoldable pub memmove : (dest src count : ℕ) → (ℕ → ℕ) → ℕ → ℕ
memmove dest src count memory =
    if ltb dest src then copy_up count 0 dest src memory else copy_down count dest src memory

-- A string is the list of the bytes before its NUL. `n` is a `long`, a signed word of 32 bits, that is
-- never negative here; `none` is an overflow of its arithmetic, which C leaves undefined. The product
-- and the character are added before `'0'` is subtracted.
unfoldable pub atol_loop : List ℕ → ℕ → Option ℤ
atol_loop [] n = some (pos n)
atol_loop (c ∷ str) n =
    let more = atol_loop str (n * 10 + c - b'0') in
    if isdigit (pos c) then if ltb (n * 10 + c) (2 ^ 31) then more else none else some (pos n)

unfoldable pub atol : List ℕ → Option ℤ
atol str = atol_loop str 0
