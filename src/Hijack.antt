-- ===== src/Hijack.antt =====
-- kernel/hijack.c: the boot loader's handlers of system calls and interrupts are overwritten with jumps
-- to the kernel's. `memory` gives the word at an address.
pub mod Redirect
use Prim.Native.Nat.{bit_and, bit_xor}
use embd_lab.Prelude.{ℕ, ◌+◌, ◌%◌, ◌^◌, Bool, Option, none, some, ◌==◌, ◌||◌, if◌then◌else◌, update}

abbrev pub pc_currentaddr_offset : ℕ
pc_currentaddr_offset = 8

abbrev pub vectortable_swi_entry : ℕ
vectortable_swi_entry = 0x08

abbrev pub vectortable_irq_entry : ℕ
vectortable_irq_entry = 0x18

abbrev pub load_pc_pc_4_encoding : ℕ
load_pc_pc_4_encoding = 0xe51ff004

abbrev pub load_pc_pc_plus_offset_mask : ℕ
load_pc_pc_plus_offset_mask = 0xe59ff000

abbrev pub load_pc_pc_minus_offset_mask : ℕ
load_pc_pc_minus_offset_mask = 0xe51ff000

-- Where the boot loader's handler starts, and its first two instructions.
pub record Saved : Type 0 where
  pub iaddr_1 : ℕ
  pub iaddr_2 : ℕ
  pub instruction1 : ℕ
  pub instruction2 : ℕ

-- The memory, and the variables of the two functions.
pub record Wiring : Type 0 where
  pub memory : ℕ → ℕ
  pub swi : Saved
  pub irq : Saved

-- `((word ^ mask) & 0xfffff000) == 0`.
unfoldable pub has_opcode : (word mask : ℕ) → Bool
has_opcode word mask = bit_and (bit_xor word mask) 0xfffff000 == 0

-- `word & 0x0fff`.
unfoldable pub offset_of : ℕ → ℕ
offset_of word = bit_and word 0x0fff

-- The body of the two functions, for an entry of the vector table and the kernel's handler. `none` is
-- an instruction that is not accepted.
unfoldable pub wire_in : (entry handler : ℕ) → (ℕ → ℕ) → Option ((ℕ → ℕ) × Saved)
unfolding has_opcode offset_of
wire_in entry handler memory =
    if has_opcode (memory entry) load_pc_pc_plus_offset_mask
      || has_opcode (memory entry) load_pc_pc_minus_offset_mask
    then (let jump_entry = entry + pc_currentaddr_offset + offset_of (memory entry) in
        let iaddrptr = memory jump_entry in
        let second = (iaddrptr + 4) % 2 ^ 32 in
        some (
          update (update memory iaddrptr load_pc_pc_4_encoding) second handler,
          record {
            iaddr_1 = iaddrptr;
            iaddr_2 = second;
            instruction1 = memory iaddrptr;
            instruction2 = memory second;
          },
        ))
    else none

-- The state and the value that is returned; `s_handler` is the address of `S_Handler`.
unfoldable pub install_handler : (s_handler : ℕ) → Wiring → Wiring × ℕ
install_handler s_handler w = elim (wire_in vectortable_swi_entry s_handler w.memory) [
  | none ↦ (w, 0x0badc0de)
  | some (memory, saved) ↦ (record w { memory = memory; swi = saved }, 0)
]

unfoldable pub install_irqhandler : (irq_handler : ℕ) → Wiring → Wiring × ℕ
install_irqhandler irq_handler w = elim (wire_in vectortable_irq_entry irq_handler w.memory) [
  | none ↦ (w, 0x0badc0de)
  | some (memory, saved) ↦ (record w { memory = memory; irq = saved }, 0)
]
