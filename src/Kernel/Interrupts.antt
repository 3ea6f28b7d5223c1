-- ===== src/Kernel/Interrupts.antt =====
-- init_gdt and init_idt of src/kernel.c, with the descriptors of src/gdt.c, src/gdt.h and src/idt.h.
use si_stultum.Base.{
  ℕ, suc, ◌+◌, ◌-◌, ◌*◌, ◌/◌, ◌%◌, ◌^◌, ◌<◌, true, ◌≡◌, ◌≢◌, refl, sym, ap, arith, ◌∙◌, inl, inr,
  ◌⊎◌, List, [], ◌∷◌,
}
use mathlib.Core.Path.{subst}
use si_stultum.Memory.{Memory, load, store, load-store_self, load-store_elsewhere}
use si_stultum.Frames.{Frames, request}
use si_stultum.Frames.Request.{IsGrant}
use si_stultum.Frames.Supply.{HasSupply, request-IsGranted}
use si_stultum.Frames.Bitmap.{IsBitmap}
use si_stultum.Frames.Copy.{memset}
use si_stultum.Ports.Machine.{Machine, Device, outb, pic_remap, init_pit, enable_interrupts}
use si_stultum.Idt.{IdtEntry, IsEntry, idt_create_entry, idt_create_entry-IsEntry, interrupt_gate}

-- GDTDescriptor and IDTDescriptor.
pub record Descriptor : Type 0 where
  pub size : ℕ
  pub offset : ℕ

pub record GdtEntry : Type 0 where
  pub limit0 : ℕ
  pub base0 : ℕ
  pub base1 : ℕ
  pub accessbyte : ℕ
  pub limit1_flags : ℕ
  pub base2 : ℕ

-- An entry with no base and no limit.
abbrev flat : ℕ → ℕ → GdtEntry
flat accessbyte limit1_flags = record {
  limit0 = 0;
  base0 = 0;
  base1 = 0;
  accessbyte = accessbyte;
  limit1_flags = limit1_flags;
  base2 = 0;
}

-- DEFAULT_GDT.
abbrev pub default_gdt : List GdtEntry
default_gdt =
    flat 0x00 0x00
    ∷ (flat 0x9a 0xa0
        ∷ (flat 0x92 0xa0 ∷ (flat 0x00 0x00 ∷ (flat 0x9a 0xa0 ∷ (flat 0x92 0xa0 ∷ [])))))

-- init_gdt up to the load by set_gdt, with DEFAULT_GDT at an address; a GDT is aligned to a page, so that
-- its size is one.
unfoldable pub init_gdt : ℕ → Memory → Memory × Descriptor
init_gdt gdt m =
    (memset m (gdt + 64 * 6) 0 (4096 - 64 * 6), record { size = 4096 - 1; offset = gdt })

-- The 16 bytes of an entry as a number, low byte first.
unfoldable pub packed : IdtEntry → ℕ
packed e =
    e.offset_0
    + 2 ^ 16
      * (e.selector
          + 2 ^ 16
            * (e.ist
                + 2 ^ 8
                  * (e.type_attributes
                      + 2 ^ 8 * (e.offset_1 + 2 ^ 16 * (e.offset_2 + 2 ^ 32 * e.zero)))))

-- The entry that the processor reads from 16 bytes.
unfoldable pub entry_of : ℕ → IdtEntry
entry_of n = record {
  offset_0 = n % 2 ^ 16;
  selector = n / 2 ^ 16 % 2 ^ 16;
  ist = n / 2 ^ 32 % 2 ^ 8;
  type_attributes = n / 2 ^ 40 % 2 ^ 8;
  offset_1 = n / 2 ^ 48 % 2 ^ 16;
  offset_2 = n / 2 ^ 64 % 2 ^ 32;
  zero = n / 2 ^ 96;
}

-- *(IDTEntry *)(IDTR.offset + vector * sizeof(IDTEntry)) = IDT_CREATE_ENTRY(handler, 0x08, 0, ...)
unfoldable pub set_gate : ℕ → ℕ → ℕ → Memory → Memory
unfolding packed idt_create_entry
set_gate base vector handler m =
    store 16 (base + vector * 16) (packed (idt_create_entry handler 0x08 0 interrupt_gate)) m

-- The addresses of the handlers of src/interrupts.c.
pub record Handlers : Type 0 where
  pub page_fault : ℕ
  pub double_fault : ℕ
  pub general_protection_fault : ℕ
  pub timer : ℕ
  pub keyboard : ℕ

unfoldable pub set_gates : ℕ → Handlers → Memory → Memory
unfolding set_gate
set_gates base h m =
    let m = set_gate base 0xe h.page_fault m in
    let m = set_gate base 0x8 h.double_fault m in
    let m = set_gate base 0xd h.general_protection_fault m in
    let m = set_gate base 0x20 h.timer m in set_gate base 0x21 h.keyboard m

-- The kernel's state around the table.
pub record Core : Type 0 where
  pub frames : Frames
  pub machine : Machine
  pub idtr : Descriptor

-- init_idt; set_idt loads the descriptor.
unfoldable pub init_idt : Device → Handlers → Core → Core
unfolding set_gates pic_remap init_pit outb enable_interrupts
init_idt device h s =
    let (f, offset) = request s.frames in
    record {
      frames = record f { memory = set_gates offset h f.memory };
      machine =
          enable_interrupts (
            outb 0xa1 0xff (outb 0x21 0xfc (init_pit 1000 (pic_remap device 0x20 0x28 s.machine))));
      idtr = record { size = 0x0fff; offset = offset };
    }

-- The entry of a vector in a table.
abbrev pub gate_at : Memory → ℕ → ℕ → IdtEntry
gate_at m base vector = entry_of (load 16 (base + vector * 16) m)

-- The vector's entry is a present interrupt gate of ring 0, type byte 0x8e with the Present bit 0x80, that
-- leads to the handler by the code segment 0x08.
abbrev pub LeadsTo : Memory → ℕ → ℕ → ℕ → Type 0
LeadsTo m base vector handler =
    IsEntry handler 0x08 0 0x8e (gate_at m base vector)
    × ((gate_at m base vector).type_attributes ≡ 0x8e)

-- The seven fields of a gate, taken out of its number.
unpack :
    (x y z : ℕ)
    → x < 2 ^ 16
    → y < 2 ^ 16
    → z < 2 ^ 32
    → let n =
        x + 2 ^ 16 * (8 + 2 ^ 16 * (0 + 2 ^ 8 * (142 + 2 ^ 8 * (y + 2 ^ 16 * (z + 2 ^ 32 * 0))))) in
      (n % 2 ^ 16 ≡ x)
      × (n / 2 ^ 16 % 2 ^ 16 ≡ 8)
      × (n / 2 ^ 32 % 2 ^ 8 ≡ 0)
      × (n / 2 ^ 40 % 2 ^ 8 ≡ 142)
      × (n / 2 ^ 48 % 2 ^ 16 ≡ y)
      × (n / 2 ^ 64 % 2 ^ 32 ≡ z)
      × (n / 2 ^ 96 ≡ 0)
unpack x y z hx hy hz =
    (omega arith, omega arith, omega arith, omega arith, omega arith, omega arith, omega arith)

entry_of-packed :
    (handler : ℕ)
    → handler < 2 ^ 64
    → entry_of (packed (idt_create_entry handler 0x08 0 interrupt_gate))
      ≡ idt_create_entry handler 0x08 0 interrupt_gate
unfolding entry_of packed idt_create_entry
entry_of-packed handler h =
    let fields = (idt_create_entry-IsEntry handler 0x08 0 interrupt_gate h).fields in
    let e = idt_create_entry handler 0x08 0 interrupt_gate in
    let parts = unpack e.offset_0 e.offset_1 e.offset_2 fields.0 fields.1 fields.2 in
    rw (parts.0, parts.1, parts.2, parts.3, parts.4, parts.5, parts.6) refl

packed-lt : (handler : ℕ) → packed (idt_create_entry handler 0x08 0 interrupt_gate) < 256 ^ 16
unfolding packed idt_create_entry
packed-lt handler = omega arith

module _ (base vector handler : ℕ) (m : Memory) where
  set_gate-LeadsTo : handler < 2 ^ 64 → LeadsTo (set_gate base vector handler m) base vector handler
  unfolding set_gate
  set_gate-LeadsTo h =
      let entry = idt_create_entry handler 0x08 0 interrupt_gate in
      let made = idt_create_entry-IsEntry handler 0x08 0 interrupt_gate h in
      subst (λ e. IsEntry handler 0x08 0 0x8e e × (e.type_attributes ≡ 0x8e))
        (sym (
          ap entry_of (load-store_self 16 (base + vector * 16) (packed entry) m (packed-lt handler))
          ∙ entry_of-packed handler h))
        (made, made.gate (inl refl))

  set_gate_elsewhere :
      (other : ℕ)
      → vector ≢ other
      → gate_at (set_gate base vector handler m) base other ≡ gate_at m base other
  unfolding set_gate
  set_gate_elsewhere other ne =
      ap entry_of
        (load-store_elsewhere 16 (base + vector * 16) 16 (base + other * 16) _ m (omega arith))

  keeps :
      (other address : ℕ)
      → vector ≢ other
      → LeadsTo m base other address
      → LeadsTo (set_gate base vector handler m) base other address
  keeps other address ne leads =
      subst (λ e. IsEntry address 0x08 0 0x8e e × (e.type_attributes ≡ 0x8e))
        (sym (set_gate_elsewhere other ne)) leads

-- The five vectors that init_idt sets.
abbrev pub IsVector : ℕ → Type 0
IsVector v = (v ≡ 0xe) ⊎ ((v ≡ 0x8) ⊎ ((v ≡ 0xd) ⊎ ((v ≡ 0x20) ⊎ (v ≡ 0x21))))

-- What set_gates promises of a table: each of the five vectors leads to its handler, and every other entry
-- is what the memory held before.
pub record IsInstalled (base : ℕ) (h : Handlers) (before after : Memory) : Type 0 where
  pub page_fault : LeadsTo after base 0xe h.page_fault
  pub double_fault : LeadsTo after base 0x8 h.double_fault
  pub general_protection_fault : LeadsTo after base 0xd h.general_protection_fault
  pub timer : LeadsTo after base 0x20 h.timer
  pub keyboard : LeadsTo after base 0x21 h.keyboard
  pub others : (v : ℕ) → ¬ (IsVector v) → gate_at after base v ≡ gate_at before base v

-- The handlers' addresses are 64-bit numbers.
pub record IsAddressed (h : Handlers) : Type 0 where
  pub page_fault : h.page_fault < 2 ^ 64
  pub double_fault : h.double_fault < 2 ^ 64
  pub general_protection_fault : h.general_protection_fault < 2 ^ 64
  pub timer : h.timer < 2 ^ 64
  pub keyboard : h.keyboard < 2 ^ 64

-- The five gates of set_gates come to stand in the table, and no other entry changes.
set_gates-IsInstalled :
    (base : ℕ) (h : Handlers) (m : Memory)
    → IsAddressed h
    → IsInstalled base h m (set_gates base h m)
unfolding set_gates
set_gates-IsInstalled base h m addressed =
    let m1 = set_gate base 0xe h.page_fault m in
    let m2 = set_gate base 0x8 h.double_fault m1 in
    let m3 = set_gate base 0xd h.general_protection_fault m2 in
    let m4 = set_gate base 0x20 h.timer m3 in
    let last = keeps base 0x21 h.keyboard m4 in
    let fourth = keeps base 0x20 h.timer m3 in
    let third = keeps base 0xd h.general_protection_fault m2 in
    let second = keeps base 0x8 h.double_fault m1 in
    record {
      page_fault = last 0xe h.page_fault (omega arith) (
          fourth 0xe h.page_fault (omega arith) (
            third 0xe h.page_fault (omega arith) (
              second 0xe h.page_fault (omega arith)
                (set_gate-LeadsTo base 0xe h.page_fault m addressed.page_fault))));
      double_fault = last 0x8 h.double_fault (omega arith) (
          fourth 0x8 h.double_fault (omega arith) (
            third 0x8 h.double_fault (omega arith)
              (set_gate-LeadsTo base 0x8 h.double_fault m1 addressed.double_fault)));
      general_protection_fault = last 0xd h.general_protection_fault (omega arith) (
          fourth 0xd h.general_protection_fault (omega arith) (
            set_gate-LeadsTo base 0xd h.general_protection_fault m2
              addressed.general_protection_fault));
      timer =
          last 0x20 h.timer (omega arith) (set_gate-LeadsTo base 0x20 h.timer m3 addressed.timer);
      keyboard = set_gate-LeadsTo base 0x21 h.keyboard m4 addressed.keyboard;
      others = λ v unset.
          set_gate_elsewhere base 0x21 h.keyboard m4 v (λ e. unset (inr (inr (inr (inr (sym e))))))
          ∙ set_gate_elsewhere base 0x20 h.timer m3 v (λ e. unset (inr (inr (inr (inl (sym e))))))
          ∙ set_gate_elsewhere base 0xd h.general_protection_fault m2 v
              (λ e. unset (inr (inr (inl (sym e)))))
          ∙ set_gate_elsewhere base 0x8 h.double_fault m1 v (λ e. unset (inr (inl (sym e))))
          ∙ set_gate_elsewhere base 0xe h.page_fault m v (λ e. unset (inl (sym e)));
    }

-- Where the handlers have 64-bit addresses and the allocator has a frame to give at or behind the word of
-- last_hit, init_idt leaves a table in the frame that ppa_request grants: the register holds the frame's
-- address and the size 0x0fff, the five vectors are present interrupt gates that lead to their handlers, every
-- other entry is what the frame held, since it is not cleared, and the interrupts are on.
pub init_idt-IsInstalled :
    (device : Device) (h : Handlers) (s : Core) (n : ℕ)
    → IsAddressed h
    → IsBitmap s.frames
    → s.frames.max_index < 2 ^ 40
    → HasSupply s.frames (suc n)
    → let s' = init_idt device h s in
      (c : ℕ) × IsGrant s.frames c (request s.frames)
      × (s'.idtr.offset ≡ c * 4096)
      × (s'.idtr.size ≡ 0x0fff)
      × IsInstalled (c * 4096) h (request s.frames).0.memory s'.frames.memory
      × (s'.machine.interrupts ≡ true)
unfolding init_idt enable_interrupts
init_idt-IsInstalled device h s n addressed valid small supply =
    let (c, granted) = request-IsGranted s.frames n valid small supply in
    let m = (request s.frames).0.memory in
    let offset : (request s.frames).1 ≡ c * 4096 = granted.grant.address in
    (
      c,
      granted.grant,
      offset,
      refl,
      subst (λ base. IsInstalled base h m (set_gates (request s.frames).1 h m)) offset
          (set_gates-IsInstalled (request s.frames).1 h m addressed),
      refl,
    )
