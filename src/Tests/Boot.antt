-- ===== src/Tests/Boot.antt =====
-- Vector tables as a boot loader leaves them, and what hijack.c does to them.
use embd_lab.Prelude.{ℕ, ◌≡◌, refl, some, arith, ◌==◌, if◌then◌else◌}
use embd_lab.Hijack.{Saved, wire_in}
use embd_lab.Hijack.Redirect.{put_back, ldr_pc, wire_in-redirects, wire_in-misses}

-- The entry at 8 reads the word at `table`, which is the address of the boot loader's handler.
abbrev vectors : (word table : ℕ) → ℕ → ℕ
vectors word table a =
    if a == 8
    then word
    else if a == table
    then 0xa3f00000
    else if a == 0x20
    then 0xa3f08000
    else 0xe1a00000

wire_in-redirects_example :
    (memory' : ℕ → ℕ) × (saved : Saved) × (wire_in 8 0xa3001000 (vectors 0xe59ff0f0 0x100)
      ≡ some (memory', saved))
    × (ldr_pc memory' 8 ≡ some 0xa3f00000)
    × (ldr_pc memory' 0xa3f00000 ≡ some 0xa3001000)
    × ((j : ℕ) → put_back memory' saved j ≡ vectors 0xe59ff0f0 0x100 j)
wire_in-redirects_example =
    wire_in-redirects 8 0xa3001000 0xf0 (vectors 0xe59ff0f0 0x100) (omega arith) (omega arith) refl
      (record {
        below = omega arith;
        entry_apart = (omega arith, omega arith);
        jump_apart = (omega arith, omega arith);
      })

minus_entry_leads : ldr_pc (vectors 0xe51ff010 0) 8 ≡ some 0xa3f00000
unfolding ldr_pc
minus_entry_leads = refl

-- The entry `ldr pc, [pc, #-16]` reads the word at 0; the code takes the one at 0x20.
wire_in-misses_example :
    (memory' : ℕ → ℕ) × (saved : Saved) × (wire_in 8 0xa3001000 (vectors 0xe51ff010 0)
      ≡ some (memory', saved))
    × (ldr_pc memory' 8 ≡ some 0xa3f00000)
    × (memory' 0xa3f00000 ≡ 0xe1a00000)
wire_in-misses_example =
    wire_in-misses 8 0xa3001000 0x10 (vectors 0xe51ff010 0) (omega arith) (omega arith) refl
      (record {
        below = omega arith;
        entry_apart = (omega arith, omega arith);
        jump_apart = (omega arith, omega arith);
      })
      0xa3f00000 minus_entry_leads (omega arith) (omega arith)
