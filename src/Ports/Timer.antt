-- ===== src/Ports/Timer.antt =====
-- init_PIT of src/chrono.c: the count that the timer's channel is loaded with.
use si_stultum.Base.{ℕ, ◌+◌, ◌*◌, ◌/◌, ◌^◌, ◌≤◌, false, ◌≡◌, ◌↔◌, refl, arith}
use si_stultum.Base.{List, ◌∷◌, ◌&&◌, ◌==◌, if◌then◌else◌}
use native.Mathlib.Nat.{div-lt_iff_lt-mul}
use si_stultum.Bits.{bit_and_low}
use si_stultum.Ports.Machine.{Event, written, Machine, init_pit, outb, clear_interrupts}

-- The count of channel 0 of the timer after the last two bytes sent to its port, low byte first.
unfoldable pub loaded : List Event → ℕ
loaded (written p hi ∷ (written q lo ∷ rest)) =
    if (p == 0x40) && (q == 0x40) then lo + 2 ^ 8 * hi else 0
loaded _ = 0

-- For a positive frequency, init_PIT loads the timer with the frequency's divisor exactly from 19 Hz
-- on, and leaves the interrupts off.
pub init_pit_lem :
    (frequency : ℕ) (m : Machine)
    → 1 ≤ frequency
    → ((loaded (init_pit frequency m).history ≡ 1193180 / frequency) ↔ (19 ≤ frequency))
      × ((init_pit frequency m).interrupts ≡ false)
unfolding init_pit outb clear_interrupts loaded
init_pit_lem frequency m h = (
  ground (
    arith,
    bit_and_low 8 (1193180 / frequency),
    bit_and_low 8 (1193180 / frequency / 2 ^ 8),
    div-lt_iff_lt-mul {k = frequency} {x = 1193180} {y = 2 ^ 16} h,
  ),
  refl,
)
