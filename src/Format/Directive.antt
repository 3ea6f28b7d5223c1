-- ===== src/Format/Directive.antt =====
-- __proto_print: the directives of a format. A format is the list of its characters before the
-- NUL; a position in it is the rest of the list, with the current `ch` in front, and [] is the NUL.
use si_stultum.Base.{
  ℕ, zero, suc, ◌+◌, ◌-◌, ◌*◌, ◌%◌, ◌^◌, Bool, true, false, Option, none, some, ℤ, pos, negsuc,
  ◌+ℤ◌,
}
use si_stultum.Base.{◌==◌, ltb, if◌then◌else◌, ◌||◌, List, [], ◌∷◌, ◌++◌, length, u8, ◌≡◌, arith}
use si_stultum.Format.{Printed, is_digit, print_int, print_unsigned, print_char, print_str}

abbrev pub is_fmtflag : ℕ → Bool
is_fmtflag c = c == b'-' || c == b'+' || c == b' ' || c == b'0'

pub record Flags : Type 0 where
  pub align : Bool
  pub prefix : ℕ
  pub pad : ℕ

unfoldable pub apply_flag : ℕ → Flags → Flags
apply_flag c fl =
    if c == b'-'
    then record fl { align = true }
    else if c == b'+'
    then record fl { prefix = b'+' }
    else if c == b' '
    then (if fl.prefix == b'+' then fl else record fl { prefix = b' ' })
    else if c == b'0'
    then record fl { pad = b'0' }
    else fl

unfoldable pub read_flags : List ℕ → Flags → Flags × List ℕ
unfolding apply_flag
read_flags [] fl = (fl, [])
read_flags (c ∷ rest) fl =
    let more = read_flags rest (apply_flag c fl) in if is_fmtflag c then more else (fl, c ∷ rest)

-- __read_int; an int that overflows is undefined.
unfoldable pub read_int : List ℕ → ℕ → Option (ℕ × List ℕ)
read_int [] acc = some (acc, [])
read_int (c ∷ rest) acc =
    let v = acc * 10 + (c - b'0') in
    let more = read_int rest v in
    if is_digit c then (if ltb v (2 ^ 31) then more else none) else some (acc, c ∷ rest)

unfoldable pub read_width : List ℕ → Option (ℤ × List ℕ)
unfolding read_int
read_width [] = some (negsuc 0, [])
read_width (c ∷ rest) =
    if is_digit c
    then elim (read_int (c ∷ rest) 0) [ none ↦ none | some (n, r) ↦ some (pos n, r) ]
    else some (negsuc 0, c ∷ rest)

unfoldable pub read_precision : List ℕ → Option (ℤ × List ℕ)
unfolding read_int
read_precision [] = some (negsuc 0, [])
read_precision (c ∷ rest) =
    if c == b'.'
    then elim (read_int rest 0) [ none ↦ none | some (n, r) ↦ some (pos n, r) ]
    else some (negsuc 0, c ∷ rest)

-- The length modifier as the bits of the argument: hh, h, none, l, ll.
unfoldable pub read_length : List ℕ → ℕ × List ℕ
read_length [] = (32, [])
read_length (c ∷ []) = if c == b'h' then (16, []) else if c == b'l' then (64, []) else (32, c ∷ [])
read_length (c ∷ d ∷ rest) =
    if c == b'h'
    then (if d == c then (8, rest) else (16, d ∷ rest))
    else if c == b'l'
    then (if d == c then (64, rest) else (64, d ∷ rest))
    else (32, c ∷ d ∷ rest)

-- A variadic argument: a register, or a pointer to a string.
pub data Arg : Type 0 where
  word : ℕ → Arg
  text : List ℕ → Arg

-- The conversion of a register to a signed type of so many bits.
abbrev pub signed_of : ℕ → ℕ → ℤ
signed_of bits w =
    let x = w % 2 ^ bits in if ltb x (2 ^ (bits - 1)) then pos x else negsuc (2 ^ bits - x - 1)

pub record Directive : Type 0 where
  pub flags : Flags
  pub width : ℤ
  pub precision : ℤ
  pub bits : ℕ

abbrev pub base_of : ℕ → ℕ
base_of ch = if ch == b'b' then 2 else if ch == b'u' then 10 else if ch == b'o' then 8 else 16

abbrev pub is_unsigned_conv : ℕ → Bool
is_unsigned_conv ch = ch == b'b' || ch == b'u' || ch == b'o' || ch == b'x' || ch == b'X'

-- va_arg of an integer or pointer type, and of char *.
abbrev pub take_word : List Arg → (ℕ → Option Printed) → Option (Printed × List Arg)
take_word [] k = none
take_word (word w ∷ args) k = elim (k w) [ none ↦ none | some p ↦ some (p, args) ]
take_word (text s ∷ args) k = none

abbrev pub take_text : List Arg → (List ℕ → Printed) → Option (Printed × List Arg)
take_text [] k = none
take_text (word w ∷ args) k = none
take_text (text s ∷ args) k = some (k s, args)

abbrev pub nothing : Printed
nothing = record { out = []; count = pos 0 }

-- 'd' and 'i'.
abbrev pub int_conv : Directive → ℕ → Option Printed
int_conv d w =
    print_int (signed_of d.bits w) d.width d.precision d.flags.align d.flags.prefix d.flags.pad

-- 'b', 'u', 'o', 'x' and 'X'.
abbrev pub unsigned_conv : Directive → ℕ → ℕ → Option Printed
unsigned_conv d ch w =
    print_unsigned (w % 2 ^ d.bits) d.width d.precision d.flags.align d.flags.pad (base_of ch)
      (ch == b'X')

-- 'p'.
abbrev pub pointer_conv : ℕ → Option Printed
pointer_conv w = print_unsigned (w % 2 ^ 64) (pos 16) (negsuc 0) false b'0' 16 true

-- The switch on the conversion character.
unfoldable pub convert : Directive → ℕ → List Arg → Option (Printed × List Arg)
convert d ch args =
    if ch == b'd' || ch == b'i'
    then take_word args (int_conv d)
    else if is_unsigned_conv ch
    then take_word args (unsigned_conv d ch)
    else if ch == b'c'
    then take_word args (λ w. some (print_char (u8 w) d.width d.flags.align))
    else if ch == b's'
    then take_text args (λ s. print_str s d.width d.precision d.flags.align)
    else if ch == b'p'
    then take_word args pointer_conv
    else if ch == b'%'
    then some (print_char b'%' d.width d.flags.align, args)
    else some (nothing, args)

abbrev no_flags : Flags
no_flags = record { align = false; prefix = 0; pad = b' ' }

-- What stands between the '%' and the conversion character.
unfoldable pub read_directive : List ℕ → Option (Directive × List ℕ)
unfolding read_flags read_width read_precision read_length
read_directive format =
    let (fl, r1) = read_flags format no_flags in
    elim (read_width r1) [
      | none ↦ none
      | some (w, r2) ↦ elim (read_precision r2) [
        | none ↦ none
        | some (p, r3) ↦
            let (bits, r4) = read_length r3 in
            some (record { flags = fl; width = w; precision = p; bits = bits }, r4)
      ]
    ]

abbrev pub put_before : List ℕ → Option Printed → Option Printed
put_before out none = none
put_before out (some q) = some (record { out = out ++ q.out; count = q.count })

-- An int holds the number.
abbrev pub is_int : ℤ → Bool
is_int (pos n) = ltb n (2 ^ 31)
is_int (negsuc n) = ltb n (2 ^ 31)

-- ret += p.count, whose overflow is undefined, and then the rest of the format at the new ret.
abbrev pub then_print : ℤ → Printed → (ℤ → Option Printed) → Option Printed
then_print ret p rest =
    let sum = ret +ℤ p.count in if is_int sum then put_before p.out (rest sum) else none

-- One directive behind a '%', and what it leaves of the format and the arguments. At the NUL the
-- switch does nothing, and the loop then reads behind the format.
unfoldable pub print_directive : List ℕ → List Arg → Option (Printed × List ℕ × List Arg)
unfolding read_directive convert
print_directive format args = elim (read_directive format) [
  | none ↦ none
  | some (d, []) ↦ none
  | some (d, ch ∷ rest) ↦ elim (convert d ch args) [
    | none ↦ none
    | some (p, args') ↦ some (p, rest, args')
  ]
]

pub +ℤ-pos : (m n : ℕ) → pos m +ℤ pos n ≡ pos (m + n)
unfolding ◌+ℤ◌
+ℤ-pos m n = ground arith

-- The loop over the format from a value of ret on; each round takes at least one character of the format.
unfoldable pub proto_loop : ℕ → ℤ → List ℕ → List Arg → Option Printed
unfolding print_directive
proto_loop zero ret format args = none
proto_loop (suc fuel) ret [] args = some (record { out = []; count = ret })
proto_loop (suc fuel) ret (ch ∷ rest) args =
    let plain =
      then_print ret (record { out = ch ∷ []; count = pos 1 })
        (λ sum. proto_loop fuel sum rest args) in
    let directive : Option Printed = elim (print_directive rest args) [
      | none ↦ none
      | some (p, rest', args') ↦ then_print ret p (λ sum. proto_loop fuel sum rest' args')
    ] in
    if ch == b'%' then directive else plain

unfoldable pub proto_print : List ℕ → List Arg → Option Printed
unfolding proto_loop
proto_print format args = proto_loop (length format + 1) (pos 0) format args
