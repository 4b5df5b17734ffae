-- ===== src/Programs/Rot13.antt =====
-- tasks/rot13/rot13.c: prints its arguments, and then for every line read the line with its letters 13
-- places on. The buffers are functions of the index; `lines` holds the keys typed during each call of
-- `read`. It prints bytes with `write`, so its console is a list of bytes, with the echo of `read`.
pub mod Buffers
pub mod Answer
pub mod Round
pub mod Twice
pub mod Start
use Prim.Native.Char.{code}
use Prim.Native.String.{String}
use embd_lab.Prelude.{
  ℕ, zero, suc, ◌+◌, ◌-◌, ℤ, pos, negsuc, Bool, true, false, not, List, [], ◌∷◌, ◌++◌, Option, none,
  some, ◌==◌, ltb, leb, ◌&&◌, ◌||◌, if◌then◌else◌, update, get_or,
}
use embd_lab.Io.{
  newline, carriage_return, ReadCall, refused, reads, done, waiting_for_key, WriteCall, rejected,
  wrote, read_syscall, write_syscall,
}
use embd_lab.Programs.{checked_reply}

-- `N`.
abbrev pub buffer_size : ℕ
buffer_size = 10

-- What the program reads and changes.
pub record Session : Type 0 where
  pub in_buffer : ℕ → ℕ
  pub out_buffer : ℕ → ℕ
  pub errno : ℤ
  pub console : List ℕ

-- The addresses of the buffers and of the string constants.
pub record Layout : Type 0 where
  pub in_address : ℕ
  pub out_address : ℕ
  pub greeting_address : ℕ
  pub no_arguments_address : ℕ
  pub arguments_address : ℕ
  pub gap_address : ℕ
  pub line_end_address : ℕ

-- What the stubs `read` and `write` return and store.
abbrev pub reply : ℤ → Session → ℤ × Session
reply r s = let (v, errno) = checked_reply r s.errno in (v, record s { errno = errno })

abbrev pub when_written : WriteCall → Session → ℤ × Session
when_written (rejected r) s = reply r s
when_written (wrote ret out) s = reply (pos ret) (record s { console = s.console ++ out })

-- `write(STDOUT_FILENO, buf, count)`: `mem i` is the byte at `buf + i`.
unfoldable pub write : (buf count : ℕ) → (ℕ → ℕ) → Session → ℤ × Session
write buf count mem s = when_written (write_syscall (pos 1) buf count mem) s

-- `read` returns, or the program waits for a key.
pub data Received : Type 0 where
  answered : ℤ × Session → Received
  waits_for_key : Received

abbrev pub when_read : ReadCall → Session → Received
when_read (refused r) s = answered (reply r s)
when_read (reads (done ret buf out)) s =
    answered (reply (pos ret) (record s { in_buffer = buf; console = s.console ++ out }))
when_read (reads waiting_for_key) s = waits_for_key

-- `read(STDIN_FILENO, inBuffer, N)`, while `keys` are typed.
unfoldable pub read : Layout → (keys : List ℕ) → Session → Received
read l keys s = when_read (read_syscall (pos 0) l.in_address buffer_size s.in_buffer keys) s

abbrev within : ℕ → ℕ → ℕ → Bool
within low high c = leb low c && leb c high

-- The character that replaces `c`.
unfoldable pub rot : ℕ → ℕ
rot c =
    if within 65 77 c || within 97 109 c
    then c + 13
    else if within 78 90 c || within 110 122 c
    then c - 13
    else c

-- The loop over the characters read, with the rounds left.
unfoldable pub rot_loop : (rounds cnt : ℕ) → (in_buffer out_buffer : ℕ → ℕ) → ℕ → ℕ
rot_loop zero cnt in_buffer out_buffer = out_buffer
rot_loop (suc rounds) cnt in_buffer out_buffer =
    rot_loop rounds (cnt + 1) in_buffer (update out_buffer cnt (rot (in_buffer cnt)))

abbrev pub is_positive : ℤ → Bool
is_positive (pos n) = ltb 0 n
is_positive (negsuc n) = false

-- `writeloc`, after a `write` that returned `r`.
abbrev pub advanced : ℕ → ℤ → ℕ
advanced writeloc (pos n) = writeloc + n
advanced writeloc (negsuc n) = writeloc

-- The `do` loop that writes the characters. `none` is out of fuel.
unfoldable pub write_loop :
    (fuel : ℕ) → Layout → (writeloc read_result : ℕ) → Session → Option (ℤ × Session)
write_loop zero l writeloc read_result s = none
write_loop (suc fuel) l writeloc read_result s =
    let (r, s₁) =
      write (l.out_address + writeloc) read_result (λ i. s.out_buffer (writeloc + i)) s in
    let rest = write_loop fuel l (advanced writeloc r) read_result s₁ in
    if is_positive r && not (advanced writeloc r == read_result) then rest else some (r, s₁)

-- A new line where the buffer is full and its last character does not end the line.
unfoldable pub end_line : Layout → (read_result : ℕ) → ℤ × Session → ℤ × Session
end_line l read_result (r, s) =
    let last = s.out_buffer (buffer_size - 1) in
    if (read_result == 10) && (not (last == newline) && not (last == carriage_return))
    then write (l.out_address + buffer_size) 1 (λ i. s.out_buffer (buffer_size + i)) s
    else (r, s)

-- The body of the loop of `main` after a `read` that returned `read_result`.
unfoldable pub rot_round : Layout → (read_result : ℕ) → Session → Option (ℤ × Session)
rot_round l read_result s =
    elim (write_loop (buffer_size + 1) l 0 read_result
      (record s { out_buffer = rot_loop read_result 0 s.in_buffer s.out_buffer })) [
        | none ↦ none
        | some written ↦ some (end_line l read_result written)
      ]

-- `main` returns, waits for a key, or, where `lines` is used up, is about to read again.
pub data Ended : Type 0 where
  returns : ℕ → Session → Ended
  waits : Ended
  reads_on : Session → Ended
  out_of_fuel : Ended

-- The loop of `main`, and its end. After a negative result of `write` it returns too.
unfoldable pub main_loop : Layout → (lines : List (List ℕ)) → Session → Ended
main_loop l [] s = reads_on s
main_loop l (keys ∷ lines) s = elim (read l keys s) [
  | waits_for_key ↦ waits
  | answered (negsuc n, s₁) ↦ returns 1 s₁
  | answered (pos zero, s₁) ↦ returns 1 s₁
  | answered (pos (suc n), s₁) ↦ elim (rot_round l (suc n) s₁) [
    | none ↦ out_of_fuel
    | some (negsuc r, s₂) ↦ returns 1 s₂
    | some (pos r, s₂) ↦ main_loop l lines s₂
  ]
]

-- The bytes of a string constant.
abbrev pub bytes : String → List ℕ
bytes String.[] = []
bytes (String.◌∷◌ c s) = code c ∷ bytes s

abbrev pub write_text : (buf : ℕ) → (count : ℕ) → String → Session → Session
write_text buf count str s = (write buf count (λ i. get_or (bytes str) i 0) s).1

-- The loop over the characters of an argument at `buf`, one `write` for each.
unfoldable pub print_argument : (buf : ℕ) → List ℕ → Session → Session
print_argument buf [] s = s
print_argument buf (c ∷ cs) s =
    print_argument (buf + 1) cs (write buf 1 (λ i. get_or (c ∷ cs) i 0) s).1

-- The loop over `argv`: the address and the characters of each argument.
unfoldable pub print_arguments : Layout → List (ℕ × List ℕ) → Session → Session
print_arguments l [] s = s
print_arguments l ((buf, cs) ∷ argv) s =
    print_arguments l argv (write_text l.gap_address 2 "  " (print_argument buf cs s))

abbrev pub test_arguments : Layout → List (ℕ × List ℕ) → Session → Session
test_arguments l [] s = write_text l.no_arguments_address 21 "There is no arguments" s
test_arguments l (argument ∷ argv) s =
    write_text l.line_end_address 1 "\n"
      (print_arguments l (argument ∷ argv) (write_text l.arguments_address 15 "Arguments are: " s))

unfoldable pub rot13_main :
    Layout → (argv : List (ℕ × List ℕ)) → (lines : List (List ℕ)) → Session → Ended
rot13_main l argv lines s = main_loop l lines (
    test_arguments l argv (
      write_text l.greeting_address 33 "Firstly, let's test the argumens\n"
        (record s { out_buffer = update s.out_buffer buffer_size newline })))
