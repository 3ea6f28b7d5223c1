-- ===== src/Text/Tests.antt =====
-- The theorems on strings at a concrete string.
use si_stultum.Base.{ℤ, pos, ◌+ℤ◌, ◌-◌, ◌*◌, ◌/◌, Bool, true, false, leb, List, [], ◌∷◌, ◌↔◌}
use si_stultum.Text.{strcmp}
use si_stultum.Text.Compare.{difference, strcmp_lem}
use si_stultum.Text.Float.{Doubles, ftoan, ftoan-negate}
use si_stultum.Base.{ℕ, ◌+◌, negsuc, ◌≡◌, if◌then◌else◌, ◌==◌, arith, some, refl}
use si_stultum.Memory.{Memory}
use si_stultum.Base.{◌⊎◌}
use si_stultum.Text.Token.{Tokens, strtok}
use si_stultum.Text.Strtok.{IsToken, IsExhausted, strtok-IsToken}
use si_stultum.Text.Number.{utoa, IsNumeral, utoa-IsNumeral}
use si_stultum.Text.{strrev}
use si_stultum.Text.Length.{IsString}
use si_stultum.Text.Reverse.{IsReversed, strrev-IsReversed}

-- "Hi" at 10.
abbrev greeting : Memory
greeting a = if a == 10 then 72 else if a == 11 then 105 else 0

greeting-IsString : IsString greeting 10 2
greeting-IsString = record { bytes = λ i h. ground arith; nul = refl }

strrev-IsReversed_example :
    (out : Memory) × (strrev 64 greeting 10 ≡ some out) × IsReversed greeting 10 2 out
strrev-IsReversed_example =
    strrev-IsReversed 64 greeting 10 2 greeting-IsString (omega arith) (omega arith)

utoa-IsNumeral_example :
    (n : ℕ) × (out : Memory) × (utoa 65 greeting 48879 100 16 ≡ some out)
    × IsNumeral greeting 48879 100 16 n out
utoa-IsNumeral_example =
    utoa-IsNumeral 65 greeting 48879 100 16 (omega arith) (omega arith) (omega arith) (omega arith)

-- "a,b" at 10, and "," at 20.
abbrev listing : Memory
listing a =
    if a == 10
    then 97
    else if a == 11
    then 44
    else if a == 12
    then 98
    else if a == 20
    then 44
    else 0

strtok-IsToken_example :
    (out : Tokens × ℕ) × (strtok 8 (record { memory = listing; last = 0 }) 10 20 ≡ some out)
    × (IsToken listing 20 1 10 3 out ⊎ IsExhausted listing 20 1 10 3 out)
strtok-IsToken_example =
    strtok-IsToken 8 1 (record { memory = listing; last = 0 }) 10 20 10 3 refl
      (λ e. absurd (omega arith)) (record { bytes = λ i h e. ground arith; nul = refl })
      (omega arith) (record { bytes = λ i h e. ground arith; nul = refl }) (omega arith)

-- Tenths as numbers, for ftoan: -5 stands for -0.5.
abbrev whole_part : ℤ → ℤ
whole_part (pos n) = pos (n / 10)
whole_part (negsuc n) = if leb 9 n then negsuc ((n + 1) / 10 - 1) else pos 0

abbrev tenths : ℤ → ℤ
tenths (pos n) = pos (10 * n)
tenths (negsuc n) = negsuc (10 * n + 9)

abbrev less : ℤ → ℤ → ℤ
less x (pos n) = if n == 0 then x else x +ℤ negsuc (n - 1)
less x (negsuc n) = x +ℤ pos (n + 1)

abbrev opposite : ℤ → ℤ
opposite (pos n) = if n == 0 then pos 0 else negsuc (n - 1)
opposite (negsuc n) = pos (n + 1)

abbrev below_zero : ℤ → Bool
below_zero (pos n) = false
below_zero (negsuc n) = true

abbrev decimals : Doubles ℤ
decimals = record {
  truncate = whole_part;
  of_int = tenths;
  minus = less;
  times_ten = λ x. tenths x;
  negate = opposite;
  is_negative = below_zero;
}

ftoan-negate_example :
    ftoan decimals 9 greeting (negsuc 4) 100 1 ≡ ftoan decimals 9 greeting (pos 5) 100 1
ftoan-negate_example = ftoan-negate decimals 9 greeting (negsuc 4) 100 1 (record {
  int_part = refl;
  int_part_negated = refl;
  minus_zero = λ x. refl;
  below = refl;
  above = refl;
})

abbrev a_b : List ℕ
a_b = 97 ∷ (44 ∷ (98 ∷ []))

abbrev comma : List ℕ
comma = 44 ∷ []

strcmp_lem_example :
    (strcmp 4 listing 10 20 ≡ some (difference a_b comma))
    × ((difference a_b comma ≡ pos 0) ↔ (a_b ≡ comma))
strcmp_lem_example =
    strcmp_lem 4 listing 10 20 a_b comma
      (refl, ground arith, (refl, ground arith, (refl, ground arith, refl)))
      (refl, ground arith, refl) (omega arith)
