-- ===== src/Programs/Rot13/Start.antt =====
-- `main` of rot13.c up to its loop.
use Prim.Native.String.{String}
use embd_lab.Prelude.{
  ℕ, suc, ◌+◌, ◌≡◌, refl, sym, ◌∙◌, ap, Bool, true, not, List, [], ◌∷◌, ◌++◌, arith, ◌==◌, ◌&&◌,
  leb, if◌then◌else◌, length, update, get_or,
}
use mathlib.Core.List.{append_assoc, append-nil}
use embd_lab.Io.{
  newline, carriage_return, legel_mem_start_addr, kernel_start_addr, put_chars, written,
}
use embd_lab.Io.Write.{written_lem}
use embd_lab.Programs.Rot13.{
  Session, Layout, bytes, write_text, print_argument, print_arguments, test_arguments, rot13_main,
  main_loop, buffer_size,
}
use embd_lab.Programs.Rot13.Buffers.{write-prints}

-- `n` bytes at `buf` lie in user memory.
abbrev pub lies_at : (buf n : ℕ) → Bool
lies_at buf n = leb legel_mem_start_addr buf && leb (buf + n) kernel_start_addr

-- All string constants do.
pub record TextsInMemory (l : Layout) : Type 0 where
  pub greeting : lies_at l.greeting_address 33 ≡ true
  pub arguments : lies_at l.arguments_address 15 ≡ true
  pub gap : lies_at l.gap_address 2 ≡ true
  pub line_end : lies_at l.line_end_address 1 ≡ true

-- A carriage return would be printed as a newline.
abbrev pub has_no_return : List ℕ → Bool
has_no_return [] = true
has_no_return (c ∷ cs) = not (c == carriage_return) && has_no_return cs

abbrev pub all_placed : List (ℕ × List ℕ) → Bool
all_placed [] = true
all_placed ((buf, cs) ∷ argv) = (lies_at buf (length cs) && has_no_return cs) && all_placed argv

-- The arguments with two spaces after each.
abbrev pub listed : List (ℕ × List ℕ) → List ℕ
listed [] = []
listed ((buf, cs) ∷ argv) = cs ++ (bytes "  " ++ listed argv)

abbrev prints : Session → List ℕ → Session
prints s out = record s { console = s.console ++ out }

prints-prints : (s : Session) (a b : List ℕ) → prints (prints s a) b ≡ prints s (a ++ b)
prints-prints s a b = ap (λ out. record s { console = out }) (append_assoc s.console a b)

write_text-prints :
    (buf n : ℕ) (str : String) (s : Session)
    → lies_at buf (suc n) ≡ true
    → written (suc n) (λ i. get_or (bytes str) i 0) ≡ bytes str
    → write_text buf (suc n) str s ≡ prints s (bytes str)
write_text-prints buf n str s placed e =
    ap (λ w. w.1) (write-prints buf n (λ i. get_or (bytes str) i 0) s (ground arith) (ground arith))
    ∙ ap (prints s) e

print_argument-prints :
    (cs : List ℕ) (buf : ℕ) (s : Session)
    → lies_at buf (length cs) ≡ true
    → has_no_return cs ≡ true
    → print_argument buf cs s ≡ prints s cs
unfolding print_argument put_chars
print_argument-prints [] buf s placed plain =
    ap (λ out. record s { console = out }) (sym (append-nil s.console))
print_argument-prints (c ∷ cs) buf s placed plain =
    let shown : (if c == carriage_return then newline else c) ≡ c = ground arith in
    let one : written 1 (λ i. get_or (c ∷ cs) i 0) ≡ c ∷ [] =
      written_lem 0 (λ i. get_or (c ∷ cs) i 0) (omega arith) ∙ rw shown refl in
    rw (write-prints buf 0 (λ i. get_or (c ∷ cs) i 0) s (ground arith) (ground arith), one)
      (print_argument-prints cs (buf + 1) (prints s (c ∷ [])) (ground arith) (ground arith)
        ∙ prints-prints s (c ∷ []) cs)

module _ (l : Layout) (mapped : TextsInMemory l) where
  print_arguments-prints :
      (argv : List (ℕ × List ℕ)) (s : Session)
      → all_placed argv ≡ true
      → print_arguments l argv s ≡ prints s (listed argv)
  unfolding print_arguments written put_chars
  print_arguments-prints [] s placed =
      ap (λ out. record s { console = out }) (sym (append-nil s.console))
  print_arguments-prints ((buf, cs) ∷ argv) s placed =
      rw
        (
          print_argument-prints cs buf s (ground arith) (ground arith),
          write_text-prints l.gap_address 1 "  " (prints s cs) mapped.gap refl,
        )
        (print_arguments-prints argv (prints (prints s cs) (bytes "  ")) (ground arith)
          ∙ (prints-prints (prints s cs) (bytes "  ") (listed argv)
              ∙ prints-prints s cs (bytes "  " ++ listed argv)))

  -- Where the string constants and the arguments lie in user memory, `main` prints its greeting and the
  -- arguments, with two spaces after each, and reaches its loop with a newline behind the buffer that
  -- it writes from.
  pub rot13_main-begins :
      (argument : ℕ × List ℕ) (argv : List (ℕ × List ℕ)) (lines : List (List ℕ)) (s : Session)
      → all_placed (argument ∷ argv) ≡ true
      → (s' : Session) × (rot13_main l (argument ∷ argv) lines s ≡ main_loop l lines s')
        × (s'.console
            ≡ s.console
              ++ bytes "Firstly, let's test the argumens\n"
              ++ bytes "Arguments are: "
              ++ listed (argument ∷ argv)
              ++ newline ∷ [])
        × (s'.out_buffer 10 ≡ newline)
  unfolding rot13_main written put_chars
  rot13_main-begins argument argv lines s placed =
      let s₀ : Session = record s { out_buffer = update s.out_buffer buffer_size newline } in
      let s₁ : Session = prints s₀ (bytes "Firstly, let's test the argumens\n") in
      let s₂ : Session = prints s₁ (bytes "Arguments are: ") in
      let s₃ : Session = prints s₂ (listed (argument ∷ argv)) in
      let begun : test_arguments l (argument ∷ argv)
            (write_text l.greeting_address 33 "Firstly, let's test the argumens\n" s₀)
          ≡ prints s₃ (newline ∷ []) =
        rw
          (
            write_text-prints l.greeting_address 32 "Firstly, let's test the argumens\n" s₀
                mapped.greeting refl,
            write_text-prints l.arguments_address 14 "Arguments are: " s₁ mapped.arguments refl,
            print_arguments-prints (argument ∷ argv) s₂ placed,
          )
          (write_text-prints l.line_end_address 0 "\n" s₃ mapped.line_end refl) in
      (prints s₃ (newline ∷ []), ap (main_loop l lines) begun, refl, refl)
