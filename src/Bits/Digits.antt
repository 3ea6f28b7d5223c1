-- ===== src/Bits/Digits.antt =====
-- Binary digits of a word, and the digits of `&`, `|` and `~`.
use native.Mathlib.Nat.{pow-suc, one-le-pow, pow-le-pow_right}
use si_stultum.Base.{Bool, true, false, ◌==◌, if◌then◌else◌}
use si_stultum.Base.{ℕ, zero, suc, ◌-◌, ◌/◌, ◌%◌, ◌^◌, ◌<◌, min, max}
use si_stultum.Base.{bit_and, bit_or, ◌≡◌, ◌≢◌, refl, ap, ◌∙◌, arith}
use si_stultum.Bits.Step.{bit_and_step, bit_or_step, zero-bit_and}

unfoldable pub bit : ℕ → ℕ → ℕ
bit x zero = x % 2
bit x (suc k) = bit (x / 2) k

pub bit-lt : (x k : ℕ) → bit x k < 2
unfolding bit
bit-lt x zero = omega arith
bit-lt x (suc k) = bit-lt (x / 2) k

pub bit-and : (x y k : ℕ) → bit (bit_and x y) k ≡ min (bit x k) (bit y k)
unfolding bit
bit-and x y zero = ground (arith, bit_and_step x y)
bit-and x y (suc k) =
    ap (λ n. bit n k) (omega (arith, bit_and_step x y)) ∙ bit-and (x / 2) (y / 2) k

pub bit-or : (x y k : ℕ) → bit (bit_or x y) k ≡ max (bit x k) (bit y k)
unfolding bit
bit-or x y zero = ground (arith, bit_or_step x y)
bit-or x y (suc k) = ap (λ n. bit n k) (omega (arith, bit_or_step x y)) ∙ bit-or (x / 2) (y / 2) k

half-two-pow : (k : ℕ) → 2 ^ suc k / 2 ≡ 2 ^ k
half-two-pow k = omega (arith, pow-suc 2 k)

pub bit_zero : (k : ℕ) → bit 0 k ≡ 0
unfolding bit
bit_zero zero = refl
bit_zero (suc k) = bit_zero k

pub bit-two-pow_self : (k : ℕ) → bit (2 ^ k) k ≡ 1
unfolding bit
bit-two-pow_self zero = refl
bit-two-pow_self (suc k) = ap (λ n. bit n k) (half-two-pow k) ∙ bit-two-pow_self k

pub bit-two-pow_ne : (j k : ℕ) → j ≢ k → bit (2 ^ j) k ≡ 0
unfolding bit
bit-two-pow_ne zero zero ne = absurd (ne refl)
bit-two-pow_ne zero (suc k) ne = bit_zero k
bit-two-pow_ne (suc j) zero ne = omega (arith, pow-suc 2 j)
bit-two-pow_ne (suc j) (suc k) ne =
    ap (λ n. bit n k) (half-two-pow j) ∙ bit-two-pow_ne j k (λ e. ne (ap suc e))

-- The complement within n digits.
pub bit-complement : (n x k : ℕ) → x < 2 ^ n → k < n → bit (2 ^ n - 1 - x) k ≡ 1 - bit x k
unfolding bit
bit-complement zero x k fits below = absurd (omega arith)
bit-complement (suc n) x zero fits below = omega (arith, pow-suc 2 n)
bit-complement (suc n) x (suc k) fits below =
    ap (λ n. bit n k) (omega (arith, pow-suc 2 n))
    ∙ bit-complement n (x / 2) k (omega (arith, pow-suc 2 n)) (omega arith)

pub bit_or-lt : (n x y : ℕ) → x < 2 ^ n → y < 2 ^ n → bit_or x y < 2 ^ n
bit_or-lt zero x y p q = ground (arith, bit_or_step x y)
bit_or-lt (suc n) x y p q = omega (
  arith,
  pow-suc 2 n,
  bit_or_step x y,
  bit_or-lt n (x / 2) (y / 2) (omega (arith, pow-suc 2 n)) (omega (arith, pow-suc 2 n)),
)

pub bit_and-lt : (n x y : ℕ) → x < 2 ^ n → bit_and x y < 2 ^ n
bit_and-lt zero zero y p = omega (arith, zero-bit_and y)
bit_and-lt zero (suc x) y p = absurd (omega arith)
bit_and-lt (suc n) x y p = omega (
  arith,
  pow-suc 2 n,
  bit_and_step x y,
  bit_and-lt n (x / 2) (y / 2) (omega (arith, pow-suc 2 n)),
)

pub two-pow-lt : (n k : ℕ) → k < n → 2 ^ k < 2 ^ n
two-pow-lt n k h =
    omega
      (arith, pow-suc 2 k, one-le-pow k 2 (omega arith), pow-le-pow_right {n = 2} (omega arith) h)

-- A truth value as a digit.
pub one-iff-if : (b : Bool) → ((if b then 1 else 0) == 1) ≡ b
one-iff-if true = refl
one-iff-if false = refl

pub bit_low : (x : ℕ) → bit x 0 ≡ x % 2
unfolding bit
bit_low x = refl
