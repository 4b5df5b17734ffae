-- ===== src/Hijack/Redirect.antt =====
-- Where an exception goes once hijack.c has wired in a handler.
use embd_lab.Prelude.{
  ℕ, ◌+◌, ◌-◌, ◌/◌, ◌%◌, ◌^◌, ◌<◌, ◌≡◌, ◌≢◌, refl, Bool, true, false, Option, none, some, arith,
  ◌==◌, ◌&&◌, ◌||◌, not, sym, ap, ◌∙◌, if◌then◌else◌, update,
}
use embd_lab.Prelude.Bits.{for_each, for_each_at}
use embd_lab.Hijack.{
  Saved, has_opcode, offset_of, wire_in, load_pc_pc_plus_offset_mask, load_pc_pc_minus_offset_mask,
  load_pc_pc_4_encoding,
}

-- What the processor does with `ldr pc, [pc, #offset]` and `ldr pc, [pc, #-offset]` at `pc`: the address
-- it jumps to. `pc` reads as the address of the instruction plus 8.
unfoldable pub ldr_pc : (memory : ℕ → ℕ) → (pc : ℕ) → Option ℕ
ldr_pc memory pc =
    let word = memory pc in
    if word / 2 ^ 12 == 0xe59ff
    then some (memory ((pc + 8 + word % 2 ^ 12) % 2 ^ 32))
    else if word / 2 ^ 12 == 0xe51ff
    then some (memory ((pc + 8 + 2 ^ 32 - word % 2 ^ 12) % 2 ^ 32))
    else none

-- What the code reads from the two instructions, for one offset.
unfoldable decodes : ℕ → Bool
decodes off =
    (has_opcode (load_pc_pc_plus_offset_mask + off) load_pc_pc_plus_offset_mask
      && (offset_of (load_pc_pc_plus_offset_mask + off) == off))
    && ((not (has_opcode (load_pc_pc_minus_offset_mask + off) load_pc_pc_plus_offset_mask)
          && has_opcode (load_pc_pc_minus_offset_mask + off) load_pc_pc_minus_offset_mask)
        && (offset_of (load_pc_pc_minus_offset_mask + off) == off))

decodes_table : for_each 4096 decodes ≡ true
unfolding for_each decodes has_opcode offset_of
decodes_table = refl

decodes-below : (off : ℕ) → off < 4096 → decodes off ≡ true
decodes-below off small = for_each_at 4096 decodes off decodes_table small

module _ (memory : ℕ → ℕ) (pc off : ℕ) (small : off < 4096) where
  ldr_pc-plus :
      memory pc ≡ load_pc_pc_plus_offset_mask + off
      → pc + 8 + off < 2 ^ 32
      → ldr_pc memory pc ≡ some (memory (pc + 8 + off))
  unfolding ldr_pc
  ldr_pc-plus word low =
      let opcode : (0xe59ff000 + off) / 2 ^ 12 ≡ 0xe59ff = omega arith in
      let at : (pc + 8 + (0xe59ff000 + off) % 2 ^ 12) % 2 ^ 32 ≡ pc + 8 + off = omega arith in
      rw (word, opcode, at) refl

  ldr_pc-minus :
      memory pc ≡ load_pc_pc_minus_offset_mask + off
      → ldr_pc memory pc ≡ some (memory ((pc + 8 + 2 ^ 32 - off) % 2 ^ 32))
  unfolding ldr_pc
  ldr_pc-minus word =
      let opcode : (0xe51ff000 + off) / 2 ^ 12 ≡ 0xe51ff = omega arith in
      let at : (0xe51ff000 + off) % 2 ^ 12 ≡ off = omega arith in rw (word, opcode, at) refl

plus-accepted :
    (off : ℕ)
    → off < 4096
    → (has_opcode (load_pc_pc_plus_offset_mask + off) load_pc_pc_plus_offset_mask ≡ true)
      × (offset_of (load_pc_pc_plus_offset_mask + off) ≡ off)
unfolding decodes
plus-accepted off small = let known = decodes-below off small in ground arith

minus-accepted :
    (off : ℕ)
    → off < 4096
    → ((has_opcode (load_pc_pc_minus_offset_mask + off) load_pc_pc_plus_offset_mask ≡ false)
        × (has_opcode (load_pc_pc_minus_offset_mask + off) load_pc_pc_minus_offset_mask ≡ true))
      × (offset_of (load_pc_pc_minus_offset_mask + off) ≡ off)
unfolding decodes
minus-accepted off small = let known = decodes-below off small in ground arith

-- The handlers do not overlap the vector and the table that lead to them, and lie below the end of the
-- address space.
pub record IsApart (entry jump_entry target : ℕ) : Type 0 where
  pub below : target + 8 < 2 ^ 32
  pub entry_apart : (entry ≢ target) × (entry ≢ target + 4)
  pub jump_apart : (jump_entry ≢ target) × (jump_entry ≢ target + 4)

-- Writing the two saved instructions back.
unfoldable pub put_back : (ℕ → ℕ) → Saved → ℕ → ℕ
put_back memory s = update (update memory s.iaddr_1 s.instruction1) s.iaddr_2 s.instruction2

module _ (entry handler off : ℕ) (memory : ℕ → ℕ) (small : off < 4096)
    (low : entry + 8 + off < 2 ^ 32) where
  abbrev wired : (iaddrptr : ℕ) → ℕ → ℕ
  wired iaddrptr =
      update (update memory iaddrptr load_pc_pc_4_encoding) ((iaddrptr + 4) % 2 ^ 32) handler

  wired-elsewhere : (t j : ℕ) → t + 8 < 2 ^ 32 → j ≢ t → j ≢ t + 4 → wired t j ≡ memory j
  wired-elsewhere t j below first second = ground arith

  wired-jumps : (t : ℕ) → t + 8 < 2 ^ 32 → ldr_pc (wired t) t ≡ some handler
  wired-jumps t below =
      let jump : wired t t ≡ load_pc_pc_minus_offset_mask + 4 = ground arith in
      let at : wired t ((t + 8 + 2 ^ 32 - 4) % 2 ^ 32) ≡ handler = ground arith in
      rw (ldr_pc-minus (wired t) t 4 (omega arith) jump, at) refl

  wire_in-eq :
      (has_opcode (memory entry) load_pc_pc_plus_offset_mask
          || has_opcode (memory entry) load_pc_pc_minus_offset_mask)
        ≡ true
      → offset_of (memory entry) ≡ off
      → (saved : Saved) × (wire_in entry handler memory
          ≡ some (wired (memory (entry + 8 + off)), saved))
        × ((j : ℕ) → put_back (wired (memory (entry + 8 + off))) saved j ≡ memory j)
  unfolding wire_in put_back
  wire_in-eq accepted at = rw (accepted, at) (_, refl, λ j. ground arith)

  -- Where the vector table's entry is `ldr pc, [pc, #off]`, the handler's address is wired in: the
  -- exception goes to where it went before, from there to the new handler, and writing the saved
  -- instructions back restores the memory, if the instructions that are overwritten are apart from the
  -- entry and from the table it reads.
  pub wire_in-redirects :
      memory entry ≡ load_pc_pc_plus_offset_mask + off
      → IsApart entry (entry + 8 + off) (memory (entry + 8 + off))
      → (memory' : ℕ → ℕ) × (saved : Saved) × (wire_in entry handler memory ≡ some (memory', saved))
        × (ldr_pc memory' entry ≡ some (memory (entry + 8 + off)))
        × (ldr_pc memory' (memory (entry + 8 + off)) ≡ some handler)
        × ((j : ℕ) → put_back memory' saved j ≡ memory j)
  wire_in-redirects word apart =
      let t = memory (entry + 8 + off) in
      let accepted = plus-accepted off small in
      let (saved, wired_in, back) =
        wire_in-eq (rw (word, accepted.0) refl) (rw word (accepted.1)) in
      let same_entry =
        wired-elsewhere t entry apart.below apart.entry_apart.0 apart.entry_apart.1 in
      let same_table =
        wired-elsewhere t (entry + 8 + off) apart.below apart.jump_apart.0 apart.jump_apart.1 in
      (
        wired t,
        saved,
        wired_in,
        ldr_pc-plus (wired t) entry off small (same_entry ∙ word) low ∙ ap some same_table,
        wired-jumps t apart.below,
        back,
      )

  -- Where the entry is `ldr pc, [pc, #-off]`, it is accepted too, but `off` is added to the address and
  -- not subtracted: the exception goes where it went before, and finds there the instruction that was
  -- there before, if these are apart from the two words that are overwritten.
  pub wire_in-misses :
      memory entry ≡ load_pc_pc_minus_offset_mask + off
      → IsApart entry ((entry + 8 + 2 ^ 32 - off) % 2 ^ 32) (memory (entry + 8 + off))
      → (target : ℕ) → ldr_pc memory entry ≡ some target
      → target ≢ memory (entry + 8 + off)
      → target ≢ memory (entry + 8 + off) + 4
      → (memory' : ℕ → ℕ) × (saved : Saved) × (wire_in entry handler memory ≡ some (memory', saved))
        × (ldr_pc memory' entry ≡ some target)
        × (memory' target ≡ memory target)
  wire_in-misses word apart target goes first second =
      let t = memory (entry + 8 + off) in
      let read = (entry + 8 + 2 ^ 32 - off) % 2 ^ 32 in
      let accepted = minus-accepted off small in
      let (saved, wired_in, back) =
        wire_in-eq (rw (word, accepted.0.0, accepted.0.1) refl) (rw word (accepted.1)) in
      let same_entry =
        wired-elsewhere t entry apart.below apart.entry_apart.0 apart.entry_apart.1 in
      let same_table = wired-elsewhere t read apart.below apart.jump_apart.0 apart.jump_apart.1 in
      (
        wired t,
        saved,
        wired_in,
        ldr_pc-minus (wired t) entry off small (same_entry ∙ word)
            ∙ (ap some same_table ∙ (sym (ldr_pc-minus memory entry off small word) ∙ goes)),
        wired-elsewhere t target apart.below first second,
      )
