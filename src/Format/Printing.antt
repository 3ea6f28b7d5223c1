-- ===== src/Format/Printing.antt =====
-- Whole runs: unsigned numbers, plain text, and a directive that ends at the NUL.
use si_stultum.Base.{
  ℕ, suc, ◌+◌, ◌-◌, ◌^◌, ◌≤◌, ◌<◌, Bool, true, false, Option, none, some, ℤ, pos, negsuc,
}
use si_stultum.Base.{
  ◌==◌, if◌then◌else◌, ltb, leb, le→leb, List, [], ◌∷◌, ◌++◌, length, length-append, ◌≡◌, ◌≢◌, refl,
  arith, inl, inr, ◌↔◌, lt-or-ge,
}
use mathlib.Core.List.{append-nil}
use si_stultum.Format.{Printed, digits_loop, buffer, lay_out, print_unsigned}
use si_stultum.Format.Digits.{value, value-digits_loop, length-digits_loop}
use si_stultum.Format.Directive.{Arg, then_print, +ℤ-pos, proto_loop, proto_print}

-- With no precision the buffer is the digits.
buffer-digits :
    (base : ℕ) (upper : Bool) (n : ℕ) → buffer base upper n (negsuc 0) ≡ digits_loop 64 base upper n
unfolding buffer
buffer-digits base upper n =
    let ds = digits_loop 64 base upper n in
    let no_zeros : 0 - length ds ≡ 0 = omega arith in rw no_zeros (append-nil ds)

fits_iff :
    (len bound n : ℕ)
    → (31 < len) ↔ (bound ≤ n)
    → (n < bound → leb (len + 1) 32 ≡ true) × (bound ≤ n → leb (len + 1) 32 ≡ false)
fits_iff len bound n many = (
  λ h. elim (lt-or-ge 31 len) [
    | inl l ↦ absurd (omega (arith, many.0 l))
    | inr l ↦ le→leb _ _ (omega arith)
  ],
  λ h. let l = many.1 h in ground arith,
)

-- Without a precision and in a base from 2 to 16, a 64-bit number of at most 31 digits is printed by
-- digits that stand for it, laid out in the field.
pub print_unsigned_lem :
    (n : ℕ) (width : ℤ) (align : Bool) (pad base : ℕ) (upper : Bool)
    → n < 2 ^ 64
    → 2 ≤ base
    → base ≤ 16
    → n < base ^ 31
    → (ds : List ℕ) × (value base ds ≡ n)
      × (print_unsigned n width (negsuc 0) align pad base upper
          ≡ some (lay_out ds width align 0 pad))
unfolding print_unsigned
print_unsigned_lem n width align pad base upper h lo hi small =
    let ds = digits_loop 64 base upper n in
    let many = length-digits_loop 64 base upper n 30 h lo in
    let fit = fits_iff (length ds) (base ^ 31) n many in
    (ds, value-digits_loop 64 base upper n h lo hi, rw (buffer-digits base upper n, fit.0 small))

some-not-none : {A : Type 0} {P : Type 0} (a : A) → some a ≡ none → P
some-not-none a e = cc

-- Without a precision and in a base from 2 on, printing a 64-bit number overflows __str_buff exactly
-- if it has more than 31 digits.
pub print_unsigned_iff :
    (n : ℕ) (width : ℤ) (align : Bool) (pad base : ℕ) (upper : Bool)
    → n < 2 ^ 64
    → 2 ≤ base
    → (print_unsigned n width (negsuc 0) align pad base upper ≡ none) ↔ (base ^ 31 ≤ n)
unfolding print_unsigned
print_unsigned_iff n width align pad base upper h lo =
    let ds = digits_loop 64 base upper n in
    let many = length-digits_loop 64 base upper n 30 h lo in
    let fit = fits_iff (length ds) (base ^ 31) n many in
    elim (lt-or-ge n (base ^ 31)) [
      | inl small ↦
          rw (buffer-digits base upper n, fit.0 small)
            (λ e. some-not-none _ e, λ l. absurd (omega arith))
      | inr large ↦ rw (buffer-digits base upper n, fit.1 large) (λ e. large, λ l. refl)
    ]

if_same : (b : Bool) (o : Option Printed) → (if b then o else o) ≡ o
if_same true o = refl
if_same false o = refl

then_print-none :
    (r n : ℕ) (out : List ℕ) (rest : ℤ → Option Printed)
    → ((k : ℕ) → rest (pos k) ≡ none)
    → then_print (pos r) (record { out = out; count = pos n }) rest ≡ none
then_print-none r n out rest stuck =
    rw (+ℤ-pos r n, stuck (r + n)) (if_same (ltb (r + n) (2 ^ 31)) none)

-- No directive begins in the text.
abbrev pub IsPlain : List ℕ → Type 0
IsPlain [] = Unit
IsPlain (c ∷ cs) = (c ≢ b'%') × IsPlain cs

-- Plain text before what is undefined leaves it undefined, and so does an overflow of ret within it.
proto_loop-plain :
    (fuel r : ℕ) (cs rest : List ℕ) (args : List Arg)
    → IsPlain cs
    → ((k : ℕ) → proto_loop fuel (pos k) rest args ≡ none)
    → proto_loop (length cs + fuel) (pos r) (cs ++ rest) args ≡ none
unfolding proto_loop
proto_loop-plain fuel r [] rest args plain stuck =
    let e : 0 + fuel ≡ fuel = omega arith in rw e (stuck r)
proto_loop-plain fuel r (c ∷ cs) rest args plain stuck =
    let e : suc (length cs) + fuel ≡ suc (length cs + fuel) = omega arith in
    let other : (c == b'%') ≡ false = ground (arith, plain.0) in
    rw (e, proto_loop, other)
      (then_print-none r 1 (c ∷ []) (λ sum. proto_loop (length cs + fuel) sum (cs ++ rest) args)
        (λ k. proto_loop-plain fuel k cs rest args plain.1 stuck))

-- A format whose only '%' is its last character is undefined: it is read behind its NUL, unless the returned int
-- overflows before that, at 2 ^ 31 characters.
pub proto_print_dangling :
    (format : List ℕ) (args : List Arg)
    → IsPlain format
    → proto_print (format ++ (b'%' ∷ [])) args ≡ none
unfolding proto_print
proto_print_dangling format args plain =
    let e : length (format ++ (b'%' ∷ [])) + 1 ≡ length format + 2 =
      omega (arith, length-append format (b'%' ∷ [])) in
    rw e (proto_loop-plain 2 0 format (b'%' ∷ []) args plain (λ k. unfold proto_loop in refl))
