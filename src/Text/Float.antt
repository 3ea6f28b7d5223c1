-- ===== src/Text/Float.antt =====
-- ftoa and ftoan of src/conlib.c. The arithmetic of double is a parameter. An int part out of the range of
-- long, or a digit out of that of int, is undefined in C.
use si_stultum.Base.{
  ◌>>=◌, ℕ, zero, suc, ◌+◌, ◌-◌, ◌%◌, Bool, true, false, Option, some, ℤ, pos, negsuc, ◌≡◌, refl,
  sym, ap, ◌∙◌, if◌then◌else◌,
}
use si_stultum.Memory.{Memory, write}
use si_stultum.Text.{strlen}
use si_stultum.Text.Number.{itoa}

-- The operations on double that ftoan uses: the conversion to an integer, towards 0, and back; the difference,
-- the product with 10, the negation, and the test for a number below 0.
pub record Doubles (F : Type 0) : Type 0 where
  pub truncate : F → ℤ
  pub of_int : ℤ → F
  pub minus : F → F → F
  pub times_ten : F → F
  pub negate : F → F
  pub is_negative : F → Bool

-- '0' + digit, stored in a char.
abbrev pub digit_byte : ℤ → ℕ
digit_byte (pos n) = (b'0' + n) % 256
digit_byte (negsuc n) = (b'0' + 255 - n % 256) % 256

module _ {F : Type 0} (double : Doubles F) where
  -- while (n--) { ... }, and where it leaves cp.
  unfoldable pub fraction_loop : ℕ → Memory → ℕ → F → Memory × ℕ
  unfolding write
  fraction_loop zero m cp value = (m, cp)
  fraction_loop (suc n) m cp value =
      let scaled = double.times_ten value in
      let digit = double.truncate scaled in
      fraction_loop n (write cp (digit_byte digit) m) (cp + 1)
        (double.minus scaled (double.of_int digit))

  -- if (value < 0) value = -value;
  unfoldable pub magnitude_of : F → F
  magnitude_of value = if double.is_negative value then double.negate value else value

  -- The part of ftoan behind itoas, with the rest of the value.
  unfoldable pub put_fraction : ℕ → Memory → ℕ → ℕ → F → Option Memory
  unfolding strlen write fraction_loop
  put_fraction fuel m buff n value = do
    len ← strlen fuel m buff
    let (m1, cp) = fraction_loop n (write (buff + len) b'.' m) (buff + len + 1) value
    some (write cp 0 m1)

  unfoldable pub ftoan : ℕ → Memory → F → ℕ → ℕ → Option Memory
  ftoan fuel m value buff n = do
    let int_part = double.truncate value
    m1 ← itoa fuel m int_part buff 10
    put_fraction fuel m1 buff n (magnitude_of (double.minus value (double.of_int int_part)))

  unfoldable pub ftoa : ℕ → Memory → F → ℕ → Option Memory
  ftoa fuel m value buff = ftoan fuel m value buff 8

  -- What IEEE arithmetic says of a number v between -1 and 0: both v and its negation have the int part 0, nothing
  -- changes where 0 is taken away, v is below 0, and its negation is not.
  pub record IsSmallNegative (v : F) : Type 0 where
    pub int_part : double.truncate v ≡ pos 0
    pub int_part_negated : double.truncate (double.negate v) ≡ pos 0
    pub minus_zero : (x : F) → double.minus x (double.of_int (pos 0)) ≡ x
    pub below : double.is_negative v ≡ true
    pub above : double.is_negative (double.negate v) ≡ false

  magnitude_of-negate :
      (v : F) → IsSmallNegative v → magnitude_of v ≡ magnitude_of (double.negate v)
  unfolding magnitude_of
  magnitude_of-negate v small = rw (small.below, small.above) refl

  -- A number between -1 and 0 loses its sign: ftoan leaves the same string for it as for its negation, with
  -- any number of digits.
  pub ftoan-negate :
      (fuel : ℕ) (m : Memory) (v : F) (buff n : ℕ)
      → IsSmallNegative v
      → ftoan fuel m v buff n ≡ ftoan fuel m (double.negate v) buff n
  unfolding ftoan
  ftoan-negate fuel m v buff n small =
      let part : ℤ → F → Option Memory =
        λ z x. itoa fuel m z buff 10 >>= λ m1. put_fraction fuel m1 buff n x in
      let from_zero : (u : F)
          → double.truncate u ≡ pos 0
          → part (double.truncate u)
              (magnitude_of (double.minus u (double.of_int (double.truncate u))))
            ≡ part (pos 0) (magnitude_of u) =
        λ u whole.
          ap (λ z. part z (magnitude_of (double.minus u (double.of_int z)))) whole
          ∙ ap (λ x. part (pos 0) (magnitude_of x)) (small.minus_zero u) in
      from_zero v small.int_part
      ∙ ap (part (pos 0)) (magnitude_of-negate v small)
      ∙ sym (from_zero (double.negate v) small.int_part_negated)
