-- ===== src/Format/Checked.antt =====
-- Formats of src/fmt.c that print ints and strings alone: whether the arguments fit them.
use si_stultum.Base.{
  ◌-◌, ◌^◌, ◌<◌, ℤ, lt→ltb, ℕ, zero, suc, ◌+◌, ◌≤◌, Bool, true, false, ◌&&◌, Option, none, some,
  pos, negsuc, pos_part, ◌==◌, leb, List, [], ◌∷◌, length, ◌≡◌, refl, ap, ◌∙◌, arith, inl, inr,
  Bool-cases, if◌then◌else◌, ◌++◌,
}
use si_stultum.Format.{Printed, print_str, print_int, clip}
use si_stultum.Format.Defined.{print_int_defined}
use si_stultum.Format.Directive.{
  Arg, word, text, Directive, convert, read_directive, print_directive, proto_loop, proto_print,
  int_conv, signed_of, put_before, then_print, +ℤ-pos,
}

-- What a %d prints at most beside its width, and what a %s prints at most.
abbrev int_most : Directive → ℕ
int_most d = pos_part d.width + 32

abbrev text_most : Directive → List ℕ → ℕ
text_most d s = pos_part d.width + length s

-- A %d of an int with a precision of at most 31, or a %s of a string, which prints at most `budget` characters;
-- `more` looks at what is left, with what is left of the budget.
abbrev checked_directive :
    (ℕ → List ℕ → List Arg → Bool) → ℕ → Option (Directive × List ℕ) → List Arg → Bool
checked_directive more budget none args = false
checked_directive more budget (some (d, [])) args = false
checked_directive more budget (some (d, ch ∷ rest)) [] = false
checked_directive more budget (some (d, ch ∷ rest)) (word w ∷ args) =
    ch == b'd'
    && d.bits == 32
    && leb (pos_part d.precision) 31
    && leb (int_most d) budget
    && more (budget - int_most d) rest args
checked_directive more budget (some (d, ch ∷ rest)) (text s ∷ args) =
    ch == b's' && leb (text_most d s) budget && more (budget - text_most d s) rest args

-- Every directive is one of those, and has its argument, and all that is printed is within the budget.
unfoldable pub checked_loop : ℕ → ℕ → List ℕ → List Arg → Bool
unfolding read_directive
checked_loop zero budget format args = false
checked_loop (suc fuel) budget [] args = true
checked_loop (suc fuel) budget (ch ∷ rest) args =
    let plain = leb 1 budget && checked_loop fuel (budget - 1) rest args in
    let directive = checked_directive (checked_loop fuel) budget (read_directive rest) args in
    if ch == b'%' then directive else plain

-- The budget is the largest int.
unfoldable pub is_checked : List ℕ → List Arg → Bool
unfolding checked_loop
is_checked format args = checked_loop (length format + 1) (2 ^ 31 - 1) format args

-- The returned count is a number up to a bound.
record IsWithin (most : ℕ) (p : Printed) : Type 0 where
  number : ℕ
  is_number : p.count ≡ pos number
  within : number ≤ most

int_converted :
    (d : Directive) (ch w : ℕ) (args : List Arg)
    → (ch == b'd') ≡ true
    → d.bits ≡ 32
    → pos_part d.precision ≤ 31
    → (p : Printed) × (convert d ch (word w ∷ args) ≡ some (p, args)) × IsWithin (int_most d) p
unfolding convert
int_converted d ch w args is bits short =
    let (p, printed, n, count, small) =
      print_int_defined w d.width d.precision d.flags.align d.flags.prefix d.flags.pad short in
    let same : int_conv d w ≡ some p =
      ap
        (λ b.
          print_int (signed_of b w) d.width d.precision d.flags.align d.flags.prefix d.flags.pad)
        bits
      ∙ printed in
    (
      p,
      rw is (
          ap
            (λ (x : Option Printed).
              let y : Option (Printed × List Arg) = elim x [
                | none ↦ none
                | some q ↦ some (q, args)
              ] in
              y)
            same),
      record { number = n; is_number = count; within = small },
    )

clip-le : (precision : ℤ) (len : ℕ) → clip precision len ≤ len
clip-le (pos p) len = ground arith
clip-le (negsuc p) len = omega arith

text_converted :
    (d : Directive) (ch : ℕ) (s : List ℕ) (args : List Arg)
    → ch ≡ b's'
    → convert d ch (text s ∷ args) ≡ some (print_str s d.width d.precision d.flags.align, args)
unfolding convert
text_converted d ch s args is = rw is refl

text-IsWithin :
    (d : Directive) (s : List ℕ)
    → IsWithin (text_most d s) (print_str s d.width d.precision d.flags.align)
unfolding print_str
text-IsWithin d s = record {
  number = _;
  is_number = refl;
  within = omega (arith, clip-le d.precision (length s));
}

-- What a directive leaves to the rest of the loop.
record IsPrinted (more : ℕ → List ℕ → List Arg → Bool) (budget : ℕ) (format : List ℕ)
    (args : List Arg) : Type 0 where
  printed : Printed
  rest : List ℕ
  left : List Arg
  most : ℕ
  printed_lem : print_directive format args ≡ some (printed, rest, left)
  within : IsWithin most printed
  affordable : most ≤ budget
  later : more (budget - most) rest left ≡ true

directive_defined :
    (more : ℕ → List ℕ → List Arg → Bool) (budget : ℕ) (format : List ℕ) (args : List Arg)
    (r : Option (Directive × List ℕ))
    → read_directive format ≡ r
    → checked_directive more budget r args ≡ true
    → IsPrinted more budget format args
unfolding print_directive
directive_defined more budget format args none reads is = absurd (ground arith)
directive_defined more budget format args (some (d, [])) reads is = absurd (ground arith)
directive_defined more budget format [] (some (d, ch ∷ rest)) reads is = absurd (ground arith)
directive_defined more budget format (word w ∷ args) (some (d, ch ∷ rest)) reads is =
    let (p, converted, small) =
      int_converted d ch w args (ground (arith, is)) (ground (arith, is)) (ground (arith, is)) in
    record {
      printed = p;
      rest = rest;
      left = args;
      most = int_most d;
      printed_lem = rw (print_directive, reads, converted) refl;
      within = small;
      affordable = ground (arith, is);
      later = ground (arith, is);
    }
directive_defined more budget format (text s ∷ args) (some (d, ch ∷ rest)) reads is = record {
  printed = print_str s d.width d.precision d.flags.align;
  rest = rest;
  left = args;
  most = text_most d s;
  printed_lem = rw (print_directive, reads, text_converted d ch s args (ground (arith, is))) refl;
  within = text-IsWithin d s;
  affordable = ground (arith, is);
  later = ground (arith, is);
}

-- A count within int goes on with the sum.
then_print-within :
    (r n : ℕ) (p : Printed) (rest : ℤ → Option Printed)
    → p.count ≡ pos n
    → r + n < 2 ^ 31
    → then_print (pos r) p rest ≡ put_before p.out (rest (pos (r + n)))
then_print-within r n p rest is small = rw (is, +ℤ-pos r n, lt→ltb (r + n) (2 ^ 31) small) refl

loop_defined :
    (fuel budget r : ℕ) (format : List ℕ) (args : List Arg)
    → r + budget < 2 ^ 31
    → checked_loop fuel budget format args ≡ true
    → (p : Printed) × (proto_loop fuel (pos r) format args ≡ some p)
unfolding checked_loop proto_loop
loop_defined zero budget r format args room is = absurd (ground arith)
loop_defined (suc fuel) budget r [] args room is = (record { out = []; count = pos r }, refl)
loop_defined (suc fuel) budget r (ch ∷ rest) args room is = elim (Bool-cases (ch == b'%')) [
  | inl directive ↦
      let one =
        directive_defined (checked_loop fuel) budget rest args (read_directive rest)
          (refl {a = read_directive rest}) (ground (arith, is, directive)) in
      let n = one.within.number in
      let (q, others) =
        loop_defined fuel (budget - one.most) (r + n) one.rest one.left
          (omega (arith, room, one.affordable, one.within.within)) one.later in
      (
        record { out = one.printed.out ++ q.out; count = q.count },
        rw (directive, one.printed_lem)
            (then_print-within r n one.printed (λ sum. proto_loop fuel sum one.rest one.left)
                one.within.is_number (omega (arith, room, one.affordable, one.within.within))
              ∙ ap (put_before one.printed.out) others),
      )
  | inr plain ↦
      let fits : 1 ≤ budget = ground (arith, is, plain) in
      let (q, others) =
        loop_defined fuel (budget - 1) (r + 1) rest args (omega arith)
          (ground (arith, is, plain)) in
      (
        record { out = (ch ∷ []) ++ q.out; count = q.count },
        rw plain (
            then_print-within r 1 (record { out = ch ∷ []; count = pos 1 })
              (λ sum. proto_loop fuel sum rest args) refl (omega (arith, room, fits))
            ∙ ap (put_before (ch ∷ [])) others),
      )
]

-- A format whose directives are %d for an int, with a precision of at most 31, and %s for a string, with these
-- arguments in their order, is never undefined, if its characters, the widths, 32 for each %d, and the lengths of
-- the strings come to at most 2 ^ 31 - 1 in all, so that the int that is returned does not overflow.
pub proto_print-is_checked :
    (format : List ℕ) (args : List Arg)
    → is_checked format args ≡ true
    → (p : Printed) × (proto_print format args ≡ some p)
unfolding is_checked proto_print
proto_print-is_checked format args is =
    loop_defined (length format + 1) (2 ^ 31 - 1) 0 format args (omega arith) is
