-- ===== src/Idt.antt =====
-- The entries of the interrupt descriptor table, src/idt.c and src/idt.h.
use si_stultum.Base.{ℕ, ◌+◌, ◌*◌, ◌^◌, ◌<◌, bit_and, ◌≡◌, refl, arith}
use si_stultum.Base.{◌≢◌, ◌⊎◌, ◌==◌, ◌||◌, if◌then◌else◌, u16, u32, ◌>>>◌}
use si_stultum.Bits.{bit_and_low}

pub record IdtEntry : Type 0 where
  pub offset_0 : ℕ
  pub selector : ℕ
  pub ist : ℕ
  pub type_attributes : ℕ
  pub offset_1 : ℕ
  pub offset_2 : ℕ
  pub zero : ℕ

-- IDT_INTERRUPT_GATE and IDT_TRAP_GATE.
abbrev pub interrupt_gate : ℕ
interrupt_gate = 0x8e

abbrev pub trap_gate : ℕ
trap_gate = 0x8f

-- idt_create_entry, and the macro IDT_CREATE_ENTRY.
unfoldable pub idt_create_entry : ℕ → ℕ → ℕ → ℕ → IdtEntry
idt_create_entry offset selector ist type_attributes = record {
  offset_0 = u16 (bit_and offset 0xffff);
  offset_1 = u16 (bit_and (offset >>> 16) 0xffff);
  offset_2 = u32 (bit_and (offset >>> 32) 0xffffffff);
  selector = selector;
  ist = ist;
  type_attributes =
      if (type_attributes == interrupt_gate) || (type_attributes == trap_gate)
      then type_attributes
      else 0;
  zero = 0;
}

-- What an entry promises: the handler's 64-bit address is recovered from its three parts, each of
-- which fits its field, the selector and the stack index are kept, the type byte of a present interrupt
-- gate, 0x8e, or trap gate, 0x8f, is stored as it is and any other is stored as 0, which the processor takes
-- as absent, and the reserved part is 0.
pub record IsEntry (offset selector ist type_attributes : ℕ) (e : IdtEntry) : Type 0 where
  pub address : e.offset_0 + e.offset_1 * 2 ^ 16 + e.offset_2 * 2 ^ 32 ≡ offset
  pub fields : (e.offset_0 < 2 ^ 16) × (e.offset_1 < 2 ^ 16) × (e.offset_2 < 2 ^ 32)
  pub kept : (e.selector ≡ selector) × (e.ist ≡ ist)
  pub gate :
      (type_attributes ≡ 0x8e) ⊎ (type_attributes ≡ 0x8f) → e.type_attributes ≡ type_attributes
  pub refused : type_attributes ≢ 0x8e → type_attributes ≢ 0x8f → e.type_attributes ≡ 0
  pub reserved : e.zero ≡ 0

-- An entry made for a 64-bit address keeps the address, and accepts the two kinds of gate alone.
pub idt_create_entry-IsEntry :
    (offset selector ist type_attributes : ℕ)
    → offset < 2 ^ 64
    → IsEntry offset selector ist type_attributes
        (idt_create_entry offset selector ist type_attributes)
unfolding idt_create_entry
idt_create_entry-IsEntry offset selector ist type_attributes h = record {
  address = omega (
    arith,
    bit_and_low 16 offset,
    bit_and_low 16 (offset >>> 16),
    bit_and_low 32 (offset >>> 32),
  );
  fields = (omega arith, omega arith, omega arith);
  kept = (refl, refl);
  gate = ground arith;
  refused = ground arith;
  reserved = refl;
}
