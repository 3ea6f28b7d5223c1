-- ===== src/Format/Digits.antt =====
-- The digits of a number: their value, and how many there are.
use si_stultum.Base.{ℕ, zero, suc, ◌+◌, ◌-◌, ◌*◌, ◌/◌, ◌%◌, ◌^◌, ◌≤◌, ◌<◌, Bool}
use si_stultum.Base.{
  ◌==◌, leb, if◌then◌else◌, List, [], ◌∷◌, length, ◌≡◌, arith, Bool-cases, inl, inr, ◌↔◌,
}
use native.Mathlib.Nat.{div-add-mod, pow-suc, mod-lt, one-le-pow}
use Prim.Native.Nat.pow
use si_stultum.Format.{digit_char, digits_loop}

-- The digit that a character stands for.
unfoldable pub digit_value : ℕ → ℕ
digit_value c = if leb c b'9' then c - b'0' else if leb c b'F' then c + 10 - b'A' else c + 10 - b'a'

-- The number that digits stand for, the lowest one first.
unfoldable pub value : ℕ → List ℕ → ℕ
value base [] = 0
value base (c ∷ cs) = digit_value c + base * value base cs

pub digit_value-digit_char : (d : ℕ) (upper : Bool) → d < 16 → digit_value (digit_char d upper) ≡ d
unfolding digit_value digit_char
digit_value-digit_char d upper h = ground arith

-- One round: n is its lowest digit and the rest, which is at most half of it.
pub split_lem :
    (n base : ℕ)
    → 2 ≤ base
    → (n % base + base * (n / base) ≡ n) × (n % base < base) × (2 * (n / base) ≤ n)
split_lem n base h =
    (omega (arith, div-add-mod n base), mod-lt n (omega arith), grind (arith, div-add-mod n base))

-- In a base from 2 to 16, the digits of a number below 2 ^ fuel stand for that number.
pub value-digits_loop :
    (fuel base : ℕ) (upper : Bool) (n : ℕ)
    → n < 2 ^ fuel
    → 2 ≤ base
    → base ≤ 16
    → value base (digits_loop fuel base upper n) ≡ n
unfolding value digits_loop
value-digits_loop zero base upper n h lo hi = omega arith
value-digits_loop (suc fuel) base upper n h lo hi =
    let parts = split_lem n base lo in
    let digit = digit_value-digit_char (n % base) upper (omega (arith, parts)) in
    elim (Bool-cases (n / base == 0)) [
      | inl last ↦
          let e : n / base ≡ 0 = ground arith in rw (last, digit) (omega (arith, rw e at parts.0))
      | inr more ↦
          let rest =
            value-digits_loop fuel base upper (n / base) (omega (arith, parts, pow-suc 2 fuel)) lo
              hi in
          rw (more, digit, rest) parts.0
    ]

le-div_iff : (x n b : ℕ) → 0 < b → (x ≤ n / b) ↔ (b * x ≤ n)
le-div_iff x n b h0 = (
  λ h. grind (arith, div-add-mod n b, mod-lt n h0),
  λ h. grind (arith, div-add-mod n b, mod-lt n h0),
)

pub length-digits_loop_pos :
    (fuel base : ℕ) (upper : Bool) (n : ℕ)
    → 0 < n
    → n < 2 ^ fuel
    → 0 < length (digits_loop fuel base upper n)
unfolding digits_loop
length-digits_loop_pos zero base upper n p h = absurd (omega arith)
length-digits_loop_pos (suc fuel) base upper n p h = omega arith

grow_iff :
    (len m base k : ℕ)
    → 0 < len
    → 1 ≤ m
    → ((j : ℕ) → (suc j < len) ↔ (base ^ suc j ≤ m))
    → (k < len) ↔ (base ^ k ≤ m)
grow_iff len m base zero h p ih = (λ l. rw (pow.zero base) p, λ l. h)
grow_iff len m base (suc k) h p ih = ih k

-- In a base from 2 on, the loop puts out more than k + 1 digits of a number below 2 ^ fuel exactly if
-- the number is at least base ^ (k + 1).
pub length-digits_loop :
    (fuel base : ℕ) (upper : Bool) (n k : ℕ)
    → n < 2 ^ fuel
    → 2 ≤ base
    → (suc k < length (digits_loop fuel base upper n)) ↔ (base ^ suc k ≤ n)
unfolding digits_loop
length-digits_loop zero base upper n k h lo =
    (λ l. elim l [ ], λ l. absurd (omega (arith, one-le-pow (suc k) base (omega arith))))
length-digits_loop (suc fuel) base upper n k h lo =
    let parts = split_lem n base lo in
    let goes_on = le-div_iff (base ^ k) n base (omega arith) in
    let power = pow-suc base k in
    let least = one-le-pow k base (omega arith) in
    elim (Bool-cases (n / base == 0)) [
      | inl last ↦ rw last (
        λ l. absurd (omega arith),
        λ l. absurd (ground (arith, goes_on.1 (omega (arith, power)))),
      )
      | inr more ↦ rw more (
          let rest =
            grow_iff (length (digits_loop fuel base upper (n / base))) (n / base) base k
              (length-digits_loop_pos fuel base upper (n / base) (ground arith)
                (omega (arith, parts, pow-suc 2 fuel)))
              (ground arith)
              (λ j.
                length-digits_loop fuel base upper (n / base) j
                  (omega (arith, parts, pow-suc 2 fuel)) lo) in
          (
            λ l. omega (arith, power, goes_on.0 (rest.0 (omega arith))),
            λ l. omega (arith, rest.1 (goes_on.1 (omega (arith, power)))),
          ))
    ]
