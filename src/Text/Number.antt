-- ===== src/Text/Number.antt =====
-- itoa and itoas of src/conlib.c, and __utoa and __itoa of src/fmt.c, which do the same: the digits of a
-- number as a string in memory.
use si_stultum.Base.{
  ℕ, zero, suc, ◌+◌, ◌-◌, ◌*◌, ◌/◌, ◌%◌, ◌^◌, ◌≤◌, ◌<◌, true, false, Option, none, some, ℤ, pos,
  negsuc, ◌≡◌, ◌≢◌, refl, sym, ap, arith, ◌∙◌,
}
use si_stultum.Base.{◌==◌, if◌then◌else◌, leb, Bool-cases, inl, inr, ◌⊎◌}
use native.Mathlib.Nat.{pow-suc}
use si_stultum.Memory.{Memory, write}
use si_stultum.Format.{digit_char, magnitude}
use si_stultum.Format.Digits.{digit_value, digit_value-digit_char, split_lem}
use si_stultum.Text.{strrev}
use si_stultum.Text.Length.{IsString}
use si_stultum.Text.Reverse.{IsReversed, strrev-IsReversed}

-- do { buff[i++] = digit; sum /= base; } while (sum): memory, and i. 64 rounds are enough for a
-- 64-bit number.
unfoldable pub utoa_loop : ℕ → Memory → (buff i sum base : ℕ) → Memory × ℕ
unfolding write digit_char
utoa_loop zero m buff i sum base = (m, i)
utoa_loop (suc left) m buff i sum base =
    let m' = write (buff + i) (digit_char (sum % base) true) m in
    let rest = utoa_loop left m' buff (i + 1) (sum / base) base in
    if sum / base == 0 then (m', i + 1) else rest

-- itoa and __utoa, with fuel for strrev.
unfoldable pub utoa : ℕ → Memory → (value buff base : ℕ) → Option Memory
unfolding utoa_loop write strrev
utoa fuel m value buff base =
    let (m1, i) = utoa_loop 64 m buff 0 value base in strrev fuel (write (buff + i) 0 m1) buff

-- itoas and __itoa; the least 64-bit integer has no negative.
unfoldable pub itoa : ℕ → Memory → ℤ → (buff base : ℕ) → Option Memory
unfolding utoa write
itoa fuel m (pos n) buff base = utoa fuel m n buff base
itoa fuel m (negsuc n) buff base = elim (magnitude (negsuc n)) [
  | none ↦ none
  | some value ↦ elim (utoa fuel m value (buff + 1) base) [
    | none ↦ none
    | some out ↦ some (write buff b'-' out)
  ]
]

-- The number that n digits from a on stand for, the highest one first.
unfoldable pub number : ℕ → Memory → ℕ → ℕ → ℕ
number base m a zero = 0
number base m a (suc n) = number base m a n * base + digit_value (m (a + n))

-- The number that n digits from a on stand for, the lowest one first.
unfoldable low_first : ℕ → Memory → ℕ → ℕ → ℕ
low_first base m a zero = 0
low_first base m a (suc n) = digit_value (m a) + base * low_first base m (a + 1) n

low_first_ext :
    (base a n : ℕ) (m k : Memory)
    → ((b : ℕ) → a ≤ b → b < a + n → m b ≡ k b)
    → low_first base m a n ≡ low_first base k a n
unfolding low_first
low_first_ext base a zero m k same = refl
low_first_ext base a (suc n) m k same = rw (
  same a (omega arith) (omega arith),
  low_first_ext base (a + 1) n m k (λ b lo hi. same b (omega arith) (omega arith)),
)

-- Digits that are turned round stand for the same number.
number-low_first :
    (base b a n : ℕ) (out m : Memory)
    → ((k : ℕ) → k < n → out (b + k) ≡ m (a + (n - 1 - k)))
    → number base out b n ≡ low_first base m a n
unfolding number low_first
number-low_first base b a zero out m turned = refl
number-low_first base b a (suc n) out m turned =
    let lowest : out (b + n) ≡ m a = turned n (omega arith) ∙ ap m (omega arith) in
    let rest =
      number-low_first base b (a + 1) n out m
        (λ k h. turned k (omega arith) ∙ ap m (omega arith)) in
    rw (lowest, rest) (grind arith)

digit_char-some : (d : ℕ) → d < 16 → digit_char d true ≢ 0
unfolding digit_char
digit_char-some d h e = ground arith

-- What the loop promises: digits of the number, the lowest first, from i on, and no other change.
record IsDigits (m : Memory) (buff i sum base : ℕ) (out : Memory × ℕ) : Type 0 where
  more : ℕ
  end_lem : out.1 ≡ i + suc more
  value_lem : low_first base out.0 (buff + i) (suc more) ≡ sum
  digits : (k : ℕ) → i ≤ k → k < out.1 → out.0 (buff + k) ≢ 0
  outside : (a : ℕ) → (a < buff + i) ⊎ (buff + out.1 ≤ a) → out.0 a ≡ m a

write_self : (a v : ℕ) (m : Memory) → write a v m a ≡ v
unfolding write
write_self a v m = ground arith

write_other : (a v b : ℕ) (m : Memory) → a ≢ b → write a v m b ≡ m b
unfolding write
write_other a v b m ne = ground arith

module _ (buff base : ℕ) (lo : 2 ≤ base) (hi : base ≤ 16) where
  last_digit :
      (m : Memory) (i sum : ℕ)
      → sum / base ≡ 0
      → IsDigits m buff i sum base (write (buff + i) (digit_char (sum % base) true) m, i + 1)
  unfolding low_first
  last_digit m i sum last =
      let (parts, below, half) = split_lem sum base lo in
      let here = write_self (buff + i) (digit_char (sum % base) true) m in
      record {
        more = 0;
        end_lem = refl;
        value_lem =
            rw (here, digit_value-digit_char (sum % base) true (omega (arith, below)))
              (omega (arith, rw last at parts));
        digits = λ k from below_end.
            let e : buff + i ≡ buff + k = omega arith in
            rw (← e, here) (digit_char-some (sum % base) (omega (arith, below)));
        outside = λ a off. write_other (buff + i) _ a m (omega arith);
      }

  cons-IsDigits :
      (m : Memory) (i sum : ℕ) (out : Memory × ℕ)
      → IsDigits
          (write (buff + i) (digit_char (sum % base) true) m)
          buff
          (i + 1)
          (sum / base)
          base
          out
      → IsDigits m buff i sum base out
  unfolding low_first
  cons-IsDigits m i sum out rest =
      let (parts, below, half) = split_lem sum base lo in
      let here : out.0 (buff + i) ≡ digit_char (sum % base) true =
        rest.outside (buff + i) (omega arith)
        ∙ write_self (buff + i) (digit_char (sum % base) true) m in
      let next : buff + (i + 1) ≡ buff + i + 1 = omega arith in
      let tail = rw next at rest.value_lem in
      record {
        more = suc rest.more;
        end_lem = omega (arith, rest.end_lem);
        value_lem =
            rw (here, digit_value-digit_char (sum % base) true (omega (arith, below)), tail)
              (omega (arith, parts));
        digits = λ k from below_end. elim (Bool-cases (i == k)) [
          | inl first ↦
              let e : buff + i ≡ buff + k = ground arith in
              rw (← e, here) (digit_char-some (sum % base) (omega (arith, below)))
          | inr later ↦ rest.digits k (ground arith) below_end
        ];
        outside = λ a off.
            rest.outside a (omega (arith, rest.end_lem))
            ∙ write_other (buff + i) _ a m (omega (arith, rest.end_lem));
      }

  utoa_loop-IsDigits :
      (left : ℕ) (m : Memory) (i sum : ℕ)
      → sum < 2 ^ suc left
      → IsDigits m buff i sum base (utoa_loop (suc left) m buff i sum base)
  unfolding utoa_loop
  utoa_loop-IsDigits zero m i sum h =
      let last : sum / base ≡ 0 = omega (arith, split_lem sum base lo) in
      rw last (last_digit m i sum last)
  utoa_loop-IsDigits (suc left) m i sum h = elim (Bool-cases (sum / base == 0)) [
    | inl last ↦ rw last (last_digit m i sum (ground arith))
    | inr more ↦ rw more (
        cons-IsDigits m i sum _ (
          utoa_loop-IsDigits left _ (i + 1) (sum / base)
            (omega (arith, split_lem sum base lo, pow-suc 2 (suc left)))))
  ]

utoa_loop-le :
    (left : ℕ) (m : Memory) (buff i sum base : ℕ) → (utoa_loop left m buff i sum base).1 ≤ i + left
unfolding utoa_loop
utoa_loop-le zero m buff i sum base = omega arith
utoa_loop-le (suc left) m buff i sum base = ground (
  arith,
  utoa_loop-le left (write (buff + i) (digit_char (sum % base) true) m) buff (i + 1) (sum / base)
      base,
)

-- What itoa promises: a string of n digits at `buff` that stands for the number, and no change but in
-- the string and its NUL.
pub record IsNumeral (m : Memory) (value buff base n : ℕ) (out : Memory) : Type 0 where
  pub string : IsString out buff n
  pub some_digit : 0 < n
  pub value_lem : number base out buff n ≡ value
  pub outside : (a : ℕ) → (a < buff) ⊎ (buff + n < a) → out a ≡ m a

turned-IsNumeral :
    (m m1 out : Memory) (value buff base n : ℕ)
    → IsDigits m buff 0 value base (m1, n)
    → IsReversed (write (buff + n) 0 m1) buff n out
    → IsNumeral m value buff base n out
turned-IsNumeral m m1 out value buff base n digits turned =
    let m2 = write (buff + n) 0 m1 in
    let start : buff ≡ buff + 0 = omega arith in
    let before : (k : ℕ) → k < n → m2 (buff + k) ≡ m1 (buff + k) =
      λ k h. write_other (buff + n) 0 (buff + k) m1 (omega arith) in
    record {
      string = record {
        bytes = λ k h e.
            digits.digits (n - 1 - k) (omega arith) (omega arith)
              (sym (before (n - 1 - k) (omega arith)) ∙ sym (turned.inside k h) ∙ e);
        nul = turned.outside (buff + n) (omega arith) ∙ write_self (buff + n) 0 m1;
      };
      some_digit = omega (arith, digits.end_lem);
      value_lem =
          number-low_first base buff buff (n) out m2 turned.inside
          ∙ low_first_ext base buff (n) m2 m1
              (λ b lo hi. write_other (buff + n) 0 b m1 (omega arith))
          ∙ ap (λ a. low_first base m1 a (n)) start
          ∙ ap (low_first base m1 (buff + 0)) (omega (arith, digits.end_lem))
          ∙ digits.value_lem;
      outside = λ a off.
          turned.outside a (omega arith)
          ∙ write_other (buff + n) 0 a m1 (omega arith)
          ∙ digits.outside a (omega arith);
    }

-- In a base from 2 to 16, with fuel for the 64 digits and the NUL at most, itoa of a 64-bit number
-- returns, and leaves a string of digits that stands for the number, and no other change in memory.
pub utoa-IsNumeral :
    (fuel : ℕ) (m : Memory) (value buff base : ℕ)
    → value < 2 ^ 64
    → 2 ≤ base
    → base ≤ 16
    → 65 ≤ fuel
    → (n : ℕ) × (out : Memory) × (utoa fuel m value buff base ≡ some out)
      × IsNumeral m value buff base n out
unfolding utoa
utoa-IsNumeral fuel m value buff base fits lo hi enough =
    let (m1, i) = utoa_loop 64 m buff 0 value base in
    let digits = utoa_loop-IsDigits buff base lo hi 63 m 0 value fits in
    let few = utoa_loop-le 64 m buff 0 value base in
    let (out, returned, turned) =
      strrev-IsReversed fuel (write (buff + i) 0 m1) buff i
        (record {
          bytes = λ k h e.
              digits.digits k (omega arith) h
                (sym (write_other (buff + i) 0 (buff + k) m1 (omega arith)) ∙ e);
          nul = write_self (buff + i) 0 m1;
        })
        (omega arith) (omega (arith, few)) in
    (i, out, returned, turned-IsNumeral m m1 out value buff base i digits turned)

-- In a base from 2 to 16, with fuel for the 64 digits and the NUL, itoas of a 64-bit integer below 0, but
-- the least one, returns, and leaves a minus sign, the digits of the magnitude behind it, and no other
-- change in memory.
pub itoa-IsNumeral :
    (fuel : ℕ) (m : Memory) (k buff base : ℕ)
    → k + 1 < 2 ^ 63
    → 2 ≤ base
    → base ≤ 16
    → 65 ≤ fuel
    → (n : ℕ) × (out : Memory) × (itoa fuel m (negsuc k) buff base ≡ some (write buff b'-' out))
      × IsNumeral m (k + 1) (buff + 1) base n out
unfolding itoa
itoa-IsNumeral fuel m k buff base fits lo hi enough =
    let small : leb (2 ^ 63 - 1) k ≡ false = ground arith in
    let (n, out, returned, numeral) =
      utoa-IsNumeral fuel m (k + 1) (buff + 1) base (omega arith) lo hi enough in
    (n, out, rw (itoa, small, returned) refl, numeral)
