-- ===== src/Ports/Machine.antt =====
-- inb, outb, outw, outl and io_wait of src/port_io.h, the interrupt controllers of src/port_io.c, the timer of
-- src/chrono.c and Timer_Handler of src/interrupts.c. What the hardware answers is a parameter.
use si_stultum.Base.{ℕ, ◌+◌, ◌-◌, ◌/◌, ◌%◌, ◌^◌, bit_and, bit_or, Bool, true, false}
use si_stultum.Base.{ltb, leb, if◌then◌else◌, u8, u16, u32, u64, ◌>>>◌, List, ◌∷◌}

-- One access to a port: the port, and the byte that was written or read, or the word or long that was written.
pub data Event : Type 0 where
  written : (port value : ℕ) → Event
  fetched : (port value : ℕ) → Event
  written_word : (port value : ℕ) → Event
  written_long : (port value : ℕ) → Event

-- The accesses so far, the last one first, the interrupt flag, and the counter of chrono.c.
pub record Machine : Type 0 where
  pub history : List Event
  pub interrupts : Bool
  pub ms_count : ℕ

-- The byte that the hardware answers on a port, after the accesses so far.
abbrev pub Device : Type 0
Device = List Event → ℕ → ℕ

unfoldable pub outb : ℕ → ℕ → Machine → Machine
outb port value m = record m { history = written port (u8 value) ∷ m.history }

unfoldable pub outw : ℕ → ℕ → Machine → Machine
outw port value m = record m { history = written_word port (u16 value) ∷ m.history }

unfoldable pub outl : ℕ → ℕ → Machine → Machine
outl port value m = record m { history = written_long port (u32 value) ∷ m.history }

unfoldable pub io_wait : Machine → Machine
unfolding outb
io_wait m = outb 0x80 0 m

unfoldable pub clear_interrupts : Machine → Machine
clear_interrupts m = record m { interrupts = false }

unfoldable pub enable_interrupts : Machine → Machine
enable_interrupts m = record m { interrupts = true }

-- PIC_sendEOI: the second controller first, for one of its lines.
unfoldable pub send_eoi : ℕ → Machine → Machine
unfolding outb
send_eoi irq m = let m' = if leb 8 irq then outb 0xa0 0x20 m else m in outb 0x20 0x20 m'

-- Timer_Handler.
unfoldable pub timer_handler : Machine → Machine
unfolding send_eoi
timer_handler m = send_eoi 0 (record m { ms_count = u64 (m.ms_count + 1) })

-- init_PIT; the divisor is a uint32_t, of which two bytes are sent.
unfoldable pub init_pit : ℕ → Machine → Machine
unfolding outb clear_interrupts
init_pit frequency m =
    let divisor = 1193180 / frequency in
    let lo = u8 (bit_and divisor 0xff) in
    let hi = u8 (bit_and (divisor >>> 8) 0xff) in
    let m = outb 0x43 0x36 (record m { ms_count = 0 }) in
    outb 0x40 hi (outb 0x40 lo (clear_interrupts m))

-- The data port of the controller that has the line, and the line's number there.
unfoldable pub mask_port : ℕ → ℕ × ℕ
mask_port line = if ltb line 8 then (0x21, line) else (0xa1, line - 8)

module _ (device : Device) where
  unfoldable pub inb : ℕ → Machine → Machine × ℕ
  inb port m =
      let value = u8 (device m.history port) in
      (record m { history = fetched port value ∷ m.history }, value)

  -- PIC_remap: the masks are read, both controllers are initialised in four words, and the masks
  -- are written back.
  unfoldable pub pic_remap : ℕ → ℕ → Machine → Machine
  unfolding inb outb io_wait
  pic_remap offset1 offset2 m =
      let (m, a1) = inb 0x21 m in
      let (m, a2) = inb 0xa1 m in
      let m = io_wait (outb 0x20 (bit_or 0x10 0x01) m) in
      let m = io_wait (outb 0xa0 (bit_or 0x10 0x01) m) in
      let m = io_wait (outb 0x21 offset1 m) in
      let m = io_wait (outb 0xa1 offset2 m) in
      let m = io_wait (outb 0x21 4 m) in
      let m = io_wait (outb 0xa1 2 m) in
      let m = io_wait (outb 0x21 0x01 m) in
      let m = io_wait (outb 0xa1 0x01 m) in outb 0xa1 a2 (outb 0x21 a1 m)

  -- IRQ_set_mask. The shift of an int counts modulo 32; outb takes the low byte.
  unfoldable pub irq_set_mask : ℕ → Machine → Machine
  unfolding mask_port inb outb
  irq_set_mask irq_line m =
      let (port, line) = mask_port irq_line in
      let (m', read) = inb port m in outb port (bit_or read (u32 (2 ^ (line % 32)))) m'

  -- IRQ_clear_mask; ~ is the complement within 32 digits.
  unfoldable pub irq_clear_mask : ℕ → Machine → Machine
  unfolding mask_port inb outb
  irq_clear_mask irq_line m =
      let (port, line) = mask_port irq_line in
      let (m', read) = inb port m in
      outb port (bit_and read (2 ^ 32 - 1 - u32 (2 ^ (line % 32)))) m'
