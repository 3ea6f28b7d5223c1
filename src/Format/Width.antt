-- ===== src/Format/Width.antt =====
-- Field widths, and the counts that the printing functions return.
use si_stultum.Base.{ℕ, zero, suc, ◌+◌, ◌-◌, ◌≤◌, max, Bool, true, false, ℤ, pos, negsuc, pos_part}
use si_stultum.Base.{
  ◌==◌, List, [], ◌∷◌, length, length-append, length-replicate, ◌≡◌, refl, arith, Bool-cases, inl,
  inr, ◌↔◌,
}
use mathlib.Core.List.{reverse, reverse_aux}
use si_stultum.Format.{Printed, lay_out, print_char, print_str, take, clip, prefix_chars}

length-reverse_aux : (xs ys : List ℕ) → length (reverse_aux xs ys) ≡ length xs + length ys
length-reverse_aux [] ys = omega arith
length-reverse_aux (x ∷ xs) ys = omega (arith, length-reverse_aux xs (x ∷ ys))

pub length-reverse : (xs : List ℕ) → length (reverse xs) ≡ length xs
length-reverse xs = omega (arith, length-reverse_aux xs [])

-- What a printing function owes: it returns the number of characters that go out, and they fill
-- the field.
abbrev pub FillsField : ℤ → ℕ → Printed → Type 0
FillsField width len p = (p.count ≡ pos (length p.out)) × (length p.out ≡ max (pos_part width) len)

-- With each alignment and padding, a number with its sign goes out in as many characters as the
-- larger of its own and the width, and that is the count returned.
pub lay_out-FillsField :
    (ds : List ℕ) (width : ℤ) (align : Bool) (prefix pad : ℕ)
    → FillsField width
        (length (prefix_chars prefix) + length ds)
        (lay_out ds width align prefix pad)
unfolding lay_out
lay_out-FillsField ds width true prefix pad =
    simp (length-append, length-reverse, length-replicate) (ground arith, omega arith)
lay_out-FillsField ds width false prefix pad = elim (Bool-cases (pad == b'0')) [
  | inl zeros ↦
      rw zeros (simp (length-append, length-reverse, length-replicate) (ground arith, omega arith))
  | inr blanks ↦
      rw blanks (simp (length-append, length-reverse, length-replicate) (ground arith, omega arith))
]

length-take : (n : ℕ) (s : List ℕ) → n ≤ length s → length (take n s) ≡ n
length-take zero s h = refl
length-take (suc n) [] h = absurd (omega arith)
length-take (suc n) (x ∷ s) h = omega (arith, length-take n s (omega arith))

clip-le : (precision : ℤ) (len : ℕ) → clip precision len ≤ len
clip-le (pos p) len = ground arith
clip-le (negsuc p) len = omega arith

-- With each alignment, a string cut off at the precision goes out in as many characters as the larger
-- of what is left of it and the width, and that is the count returned.
pub print_str-FillsField :
    (s : List ℕ) (width precision : ℤ) (align : Bool)
    → FillsField width (clip precision (length s)) (print_str s width precision align)
unfolding print_str
print_str-FillsField s width precision true =
    let shown = length-take _ s (clip-le precision (length s)) in
    simp (length-append, length-replicate, shown) (ground arith, omega arith)
print_str-FillsField s width precision false =
    let shown = length-take _ s (clip-le precision (length s)) in
    simp (length-append, length-replicate, shown) (ground arith, omega arith)

char_count :
    (n : ℕ) (width : ℤ) → n ≡ pos_part width - 1 + 1 → (width ≡ pos n) ↔ (1 ≤ pos_part width)
char_count n (pos w) e = ground arith
char_count n (negsuc w) e = ground arith

-- __print_char puts out as many characters as the larger of 1 and the width, and the count that it
-- returns is theirs exactly if the width is at least 1.
pub print_char-count_iff :
    (c : ℕ) (width : ℤ) (align : Bool)
    → (length (print_char c width align).out ≡ max (pos_part width) 1)
      × (((print_char c width align).count ≡ pos (length (print_char c width align).out))
          ↔ (1 ≤ pos_part width))
unfolding print_char
print_char-count_iff c width true =
    simp length-replicate (omega arith, char_count _ width (omega arith))
print_char-count_iff c width false =
    simp (length-append, length-replicate) (omega arith, char_count _ width (omega arith))
