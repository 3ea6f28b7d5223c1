-- ===== src/Ports/Mask.antt =====
-- IRQ_set_mask and IRQ_clear_mask of src/port_io.c, on the mask that the controller reports.
use si_stultum.Base.{ℕ, ◌-◌, ◌%◌, ◌^◌, ◌<◌, bit_and, bit_or, Bool, true, false}
use si_stultum.Base.{◌≡◌, refl, arith, ltb, ◌==◌, if◌then◌else◌, from_bool, u8, u32, ◌∷◌}
use si_stultum.Base.{Bool-cases, inl, inr, ap}
use si_stultum.Bits.{bit, bit-lt, bit-and, bit-or, bit-two-pow_self, bit-two-pow_ne}
use si_stultum.Bits.{two-pow-lt, bit-complement, bit_or-lt, bit_and-lt}
use si_stultum.Ports.Machine.{
  written, fetched, Machine, Device, irq_set_mask, irq_clear_mask, mask_port, inb, outb,
}

-- The data port of the controller that has the line.
abbrev pub data_port : ℕ → ℕ
data_port line = if ltb line 8 then 0x21 else 0xa1

-- The mask that the controller of a line reports.
abbrev pub reported : Device → Machine → ℕ → ℕ
reported device m line = u8 (device m.history (data_port line))

-- What an operation that masks (`b` is true) or unmasks a line promises: it reads the mask of the
-- line's controller and writes one back, which differs from it in the digit of the line alone.
pub record IsMasked (device : Device) (m : Machine) (line : ℕ) (b : Bool) (m' : Machine)
    : Type 0 where
  pub value : ℕ
  pub accesses :
      m'.history
      ≡ written (data_port line) value
        ∷ (fetched (data_port line) (reported device m line) ∷ m.history)
  pub digits :
      (k : ℕ)
      → k < 8
      → bit value k ≡ (if k == line % 8 then from_bool b else bit (reported device m line) k)
  pub same_flag : m'.interrupts ≡ m.interrupts

small : (x : ℕ) → x < 2 ^ 8 → u8 x ≡ x
small x h = omega arith

set_digit :
    (v j k : ℕ)
    → v < 2 ^ 8
    → j < 8
    → k < 8
    → bit (u8 (bit_or v (2 ^ j))) k ≡ (if k == j then 1 else bit v k)
set_digit v j k hv hj hk =
    rw (small _ (bit_or-lt 8 v (2 ^ j) hv (two-pow-lt 8 j hj))) (elim (Bool-cases (k == j)) [
      | inl same ↦
          let k≡j : k ≡ j = ground arith in
          rw (same, k≡j) (omega (arith, bit-or v (2 ^ j) j, bit-two-pow_self j, bit-lt v j))
      | inr other ↦
          rw other (omega (arith, bit-or v (2 ^ j) k, bit-two-pow_ne j k (λ e. ground arith)))
    ])

clear_digit :
    (v j k : ℕ)
    → v < 2 ^ 8
    → j < 8
    → k < 8
    → bit (u8 (bit_and v (2 ^ 32 - 1 - 2 ^ j))) k ≡ (if k == j then 0 else bit v k)
clear_digit v j k hv hj hk =
    rw (small _ (bit_and-lt 8 v (2 ^ 32 - 1 - 2 ^ j) hv)) (elim (Bool-cases (k == j)) [
      | inl same ↦
          let k≡j : k ≡ j = ground arith in
          rw (same, k≡j)
            (omega (
              arith,
              bit-and v (2 ^ 32 - 1 - 2 ^ j) j,
              bit-complement 32 (2 ^ j) j (two-pow-lt 32 j (omega arith)) (omega arith),
              bit-two-pow_self j,
            ))
      | inr other ↦ rw other (
          omega (
            arith,
            bit-and v (2 ^ 32 - 1 - 2 ^ j) k,
            bit-complement 32 (2 ^ j) k (two-pow-lt 32 j (omega arith)) (omega arith),
            bit-two-pow_ne j k (λ e. ground arith),
            bit-lt v k,
          ))
    ])

mask_port_lem : (line : ℕ) → line < 16 → mask_port line ≡ (data_port line, line % 8)
unfolding mask_port
mask_port_lem line h = elim (Bool-cases (ltb line 8)) [
  | inl first ↦ rw first (ap (λ j. (0x21, j)) (ground arith))
  | inr second ↦ rw second (ap (λ j. (0xa1, j)) (ground arith))
]

-- The digit that a line has among the 32 of an int.
one_digit : (j : ℕ) → j < 8 → u32 (2 ^ (j % 32)) ≡ 2 ^ j
one_digit j h =
    let same : j % 32 ≡ j = omega arith in rw same (omega (arith, two-pow-lt 32 j (omega arith)))

module _ (device : Device) (line : ℕ) (m : Machine) (within : line < 16) where
  -- For one of the 16 lines, IRQ_set_mask reads the mask of the line's controller and writes it back
  -- with that line's digit set and the others unchanged.
  pub irq_set_mask-IsMasked : IsMasked device m line true (irq_set_mask device line m)
  unfolding irq_set_mask inb outb
  irq_set_mask-IsMasked =
      rw (mask_port_lem line within, one_digit (line % 8) (omega arith))
        (record {
          value = u8 (bit_or (reported device m line) (2 ^ (line % 8)));
          accesses = refl;
          digits =
              λ k h. set_digit (reported device m line) (line % 8) k (omega arith) (omega arith) h;
          same_flag = refl;
        })

  -- For one of the 16 lines, IRQ_clear_mask reads the mask of the line's controller and writes it
  -- back with that line's digit cleared and the others unchanged.
  pub irq_clear_mask-IsMasked : IsMasked device m line false (irq_clear_mask device line m)
  unfolding irq_clear_mask inb outb
  irq_clear_mask-IsMasked =
      rw (mask_port_lem line within, one_digit (line % 8) (omega arith))
        (record {
          value = u8 (bit_and (reported device m line) (2 ^ 32 - 1 - 2 ^ (line % 8)));
          accesses = refl;
          digits = λ k h.
              clear_digit (reported device m line) (line % 8) k (omega arith) (omega arith) h;
          same_flag = refl;
        })
