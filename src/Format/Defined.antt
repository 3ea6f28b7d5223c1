-- ===== src/Format/Defined.antt =====
-- Where a %d of src/fmt.c prints an int: never beyond __str_buff.
use si_stultum.Base.{
  pos, List, ◌==◌, ℕ, ◌+◌, ◌-◌, ◌%◌, ◌^◌, ◌≤◌, ◌<◌, Bool, true, false, some, ℤ, pos_part, leb,
  le→leb, ltb, length, length-append, length-replicate, replicate, Bool-cases, ◌≡◌, refl, arith,
  inl, inr, lt-or-ge,
}
use si_stultum.Format.{
  Printed, digits_loop, buffer, fits, lay_out, sign_prefix, pad_char, prefix_chars, magnitude,
  print_int,
}
use si_stultum.Format.Digits.{length-digits_loop}
use si_stultum.Format.Directive.{signed_of}

length-buffer :
    (n : ℕ) (precision : ℤ)
    → n < 2 ^ 32
    → pos_part precision ≤ 31
    → length (buffer 10 false n precision) ≤ 31
unfolding buffer
length-buffer n precision small short =
    let ds = digits_loop 64 10 false n in
    let many = length-digits_loop 64 10 false n 9 (omega arith) (omega arith) in
    let few : length ds ≤ 31 = elim (lt-or-ge 10 (length ds)) [
      | inl l ↦ absurd (omega (arith, many.0 l))
      | inr l ↦ omega (arith, l)
    ] in
    ground (
      arith,
      few,
      length-append ds (replicate (pos_part precision - length ds) b'0'),
      length-replicate {A = ℕ} (pos_part precision - length ds) b'0',
    )

magnitude_int : (w : ℕ) → (m : ℕ) × (m < 2 ^ 32) × (magnitude (signed_of 32 w) ≡ some m)
magnitude_int w = elim (Bool-cases (ltb (w % 2 ^ 32) (2 ^ 31))) [
  | inl low ↦ (w % 2 ^ 32, omega arith, rw low refl)
  | inr high ↦
      let down : leb (2 ^ 63 - 1) (2 ^ 32 - w % 2 ^ 32 - 1) ≡ false = ground arith in
      (2 ^ 32 - w % 2 ^ 32 - 1 + 1, ground arith, rw (high, down) refl)
]

print_int-some :
    (n : ℤ) (m : ℕ) (width precision : ℤ) (align : Bool) (prefix pad : ℕ)
    → magnitude n ≡ some m
    → fits (buffer 10 false m precision) ≡ true
    → print_int n width precision align prefix pad
      ≡ some (
          lay_out
            (buffer 10 false m precision)
            width
            align
            (sign_prefix n prefix)
            (pad_char precision pad))
unfolding print_int
print_int-some n m width precision align prefix pad is fit = rw (print_int, is, fit) refl

length-prefix_chars : (prefix : ℕ) → length (prefix_chars prefix) ≤ 1
length-prefix_chars prefix = elim (Bool-cases (prefix == 0)) [
  | inl absent ↦ rw absent (omega arith)
  | inr there ↦ rw there (omega arith)
]

lay_out-count :
    (ds : List ℕ) (width : ℤ) (align : Bool) (prefix pad : ℕ)
    → length ds ≤ 31
    → (n : ℕ) × ((lay_out ds width align prefix pad).count ≡ pos n) × (n ≤ pos_part width + 32)
unfolding lay_out
lay_out-count ds width true prefix pad few = (
  length (prefix_chars prefix)
      + length ds
      + (pos_part width - length ds - length (prefix_chars prefix)),
  refl,
  ground (arith, length-prefix_chars prefix),
)
lay_out-count ds width false prefix pad few = elim (Bool-cases (pad == b'0')) [
  | inl zeros ↦ (
    length (prefix_chars prefix)
        + (pos_part width - length ds - length (prefix_chars prefix))
        + length ds,
    rw zeros refl,
    ground (arith, length-prefix_chars prefix),
  )
  | inr blanks ↦ (
    pos_part width
        - length ds
        - length (prefix_chars prefix)
        + length (prefix_chars prefix)
        + length ds,
    rw blanks refl,
    ground (arith, length-prefix_chars prefix),
  )
]

-- An int is printed, whatever the field, if the precision is at most 31, and the count is at most the width and
-- 32 more.
pub print_int_defined :
    (w : ℕ) (width precision : ℤ) (align : Bool) (prefix pad : ℕ)
    → pos_part precision ≤ 31
    → (p : Printed) × (print_int (signed_of 32 w) width precision align prefix pad ≡ some p)
      × (n : ℕ) × (p.count ≡ pos n)
      × (n ≤ pos_part width + 32)
print_int_defined w width precision align prefix pad short =
    let (m, small, is) = magnitude_int w in
    let few = length-buffer m precision small short in
    let fit : fits (buffer 10 false m precision) ≡ true = le→leb _ _ (omega (arith, few)) in
    let (n, count, within) =
      lay_out-count (buffer 10 false m precision) width align (sign_prefix (signed_of 32 w) prefix)
        (pad_char precision pad) few in
    (_, print_int-some (signed_of 32 w) m width precision align prefix pad is fit, n, count, within)
