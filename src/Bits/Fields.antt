-- ===== src/Bits/Fields.antt =====
-- A word as fields: `&` and `|` act on the part above digit k and on the part below it.
use native.Mathlib.Nat.{pow-suc, one-le-pow, div-add-mod', mod-lt}
use si_stultum.Base.{ℕ, zero, suc, ◌+◌, ◌-◌, ◌*◌, ◌/◌, ◌%◌, ◌^◌, ◌≤◌, ◌<◌}
use si_stultum.Base.{bit_and, bit_or, ◌≡◌, refl, sym, ap, ◌∙◌, arith}
use si_stultum.Bits.Step.{bit_and_step, bit_or_step, zero-bit_and}
use si_stultum.Bits.Digits.{bit}

-- The laws of 0, by one induction over the digits.
zero_laws : (fuel x : ℕ) → x ≤ fuel → (bit_and x 0 ≡ 0) × (bit_or x 0 ≡ x) × (bit_or 0 x ≡ x)
zero_laws fuel zero within = (refl, refl, refl)
zero_laws zero (suc x) within = absurd (omega arith)
zero_laws (suc fuel) (suc x) within =
    let half = zero_laws fuel (suc x / 2) (omega arith) in
    (
      omega (arith, half, bit_and_step (suc x) 0),
      omega (arith, half, bit_or_step (suc x) 0),
      omega (arith, half, bit_or_step 0 (suc x)),
    )

pub bit_and-zero : (a : ℕ) → bit_and a 0 ≡ 0
bit_and-zero a = (zero_laws a a (omega arith)).0

pub bit_or-zero : (a : ℕ) → bit_or a 0 ≡ a
bit_or-zero a = (zero_laws a a (omega arith)).1

pub zero-bit_or : (a : ℕ) → bit_or 0 a ≡ a
zero-bit_or a = (zero_laws a a (omega arith)).2

shift_twice : (p k : ℕ) → p * 2 ^ suc k ≡ p * 2 ^ k + p * 2 ^ k
shift_twice p k = grind (arith, pow-suc 2 k)

-- `&` of two words that are each a high part and k low digits.
pub bit_and_split :
    (k p r q s : ℕ)
    → r < 2 ^ k
    → s < 2 ^ k
    → bit_and (p * 2 ^ k + r) (q * 2 ^ k + s) ≡ bit_and p q * 2 ^ k + bit_and r s
bit_and_split zero p r q s hr hs = ground (arith, zero-bit_and 0)
bit_and_split (suc k) p r q s hr hs = ground (
  arith,
  bit_and_step (p * 2 ^ suc k + r) (q * 2 ^ suc k + s),
  bit_and_step r s,
  shift_twice p k,
  shift_twice q k,
  shift_twice (bit_and p q) k,
  pow-suc 2 k,
  bit_and_split k p (r / 2) q (s / 2) (omega (arith, pow-suc 2 k)) (omega (arith, pow-suc 2 k)),
)

-- `|` of two words that are each a high part and k low digits.
pub bit_or_split :
    (k p r q s : ℕ)
    → r < 2 ^ k
    → s < 2 ^ k
    → bit_or (p * 2 ^ k + r) (q * 2 ^ k + s) ≡ bit_or p q * 2 ^ k + bit_or r s
bit_or_split zero p r q s hr hs = ground (arith, bit_or-zero 0)
bit_or_split (suc k) p r q s hr hs = ground (
  arith,
  bit_or_step (p * 2 ^ suc k + r) (q * 2 ^ suc k + s),
  bit_or_step r s,
  shift_twice p k,
  shift_twice q k,
  shift_twice (bit_or p q) k,
  pow-suc 2 k,
  bit_or_split k p (r / 2) q (s / 2) (omega (arith, pow-suc 2 k)) (omega (arith, pow-suc 2 k)),
)

-- A mask of k ones keeps a number below 2 ^ k.
pub bit_and_ones : (k a : ℕ) → a < 2 ^ k → bit_and a (2 ^ k - 1) ≡ a
bit_and_ones zero zero h = refl
bit_and_ones zero (suc a) h = absurd (omega arith)
bit_and_ones (suc k) a h = ground (
  arith,
  bit_and_step a (2 ^ suc k - 1),
  pow-suc 2 k,
  one-le-pow k 2,
  bit_and_ones k (a / 2) (omega (arith, pow-suc 2 k)),
)

-- `&` with a single digit is that digit at its place.
pub bit_and-two-pow : (x k : ℕ) → bit_and x (2 ^ k) ≡ bit x k * 2 ^ k
unfolding bit
bit_and-two-pow x zero = ground (arith, bit_and_step x 1, bit_and-zero (x / 2))
bit_and-two-pow x (suc k) = ground (
  arith,
  bit_and_step x (2 ^ suc k),
  pow-suc 2 k,
  shift_twice (bit (x / 2) k) k,
  bit_and-two-pow (x / 2) k,
)

-- A mask of k ones keeps the k low digits.
pub bit_and_low : (k a : ℕ) → bit_and a (2 ^ k - 1) ≡ a % 2 ^ k
bit_and_low k a =
    ap (λ x. bit_and x (2 ^ k - 1)) (sym (div-add-mod' a (2 ^ k)))
    ∙ ap (bit_and (a / 2 ^ k * 2 ^ k + a % 2 ^ k)) (omega arith)
    ∙ bit_and_split k (a / 2 ^ k) (a % 2 ^ k) 0 (2 ^ k - 1) small (omega (arith, one-le-pow k 2))
    ∙ rw (bit_and-zero (a / 2 ^ k)) (omega (arith, bit_and_ones k (a % 2 ^ k) small))
  where
    small : a % 2 ^ k < 2 ^ k
    small = mod-lt a (one-le-pow k 2 (omega arith))
