-- ===== src/Format.antt =====
-- The formatted output of src/fmt.c and src/fmt.h. Each printing function returns the characters
-- that it hands to `__putchar`, in order, and the count that it returns. `none` is behaviour that
-- C leaves undefined: a write behind the 32 bytes of __str_buff, a read behind the NUL of the
-- format, an overflow of the int that is returned, or a va_arg of another type than the argument's.
pub mod Directive
pub mod Digits
pub mod Width
pub mod Printing
pub mod Defined
pub mod Checked
mod Tests
use si_stultum.Base.{
  ℕ, zero, suc, ◌+◌, ◌-◌, ◌*◌, ◌/◌, ◌%◌, ◌^◌, Bool, true, false, Option, none, some, ℤ, pos, negsuc,
  pos_part, sub_ℕ,
}
use si_stultum.Base.{
  ◌==◌, ltb, leb, if◌then◌else◌, ◌&&◌, ◌||◌, not, List, [], ◌∷◌, ◌++◌, length, replicate,
}
use mathlib.Core.List.{reverse}

-- is_digit, is_alpha and chint of fmt.h.
abbrev pub is_digit : ℕ → Bool
is_digit c = leb b'0' c && leb c b'9'

abbrev pub is_alpha : ℕ → Bool
is_alpha c = (leb b'a' c && leb c b'z') || (leb b'A' c && leb c b'Z')

abbrev pub chint : ℕ → ℤ
chint c = if is_digit c then pos (c - b'0') else negsuc 0

-- What has gone out, and the returned count.
pub record Printed : Type 0 where
  pub out : List ℕ
  pub count : ℤ

-- The character of a digit, with 'A' or 'a' for ten.
unfoldable pub digit_char : ℕ → Bool → ℕ
digit_char digit upper =
    if ltb digit 10 then b'0' + digit else (if upper then b'A' else b'a') + digit - 10

-- do { digit = n % base; put it; n /= base; } while (n), the lowest digit first. 64 rounds are
-- enough for a 64-bit number.
unfoldable pub digits_loop : ℕ → ℕ → Bool → ℕ → List ℕ
unfolding digit_char
digits_loop zero base upper n = []
digits_loop (suc fuel) base upper n =
    let rest = digits_loop fuel base upper (n / base) in
    digit_char (n % base) upper ∷ (if n / base == 0 then [] else rest)

-- precision != 0
abbrev pub nonzero : ℤ → Bool
nonzero (pos n) = not (n == 0)
nonzero (negsuc n) = true

-- The digits of n, lowest first, with zeros up to the precision; none if both are 0.
unfoldable pub buffer : ℕ → Bool → ℕ → ℤ → List ℕ
unfolding digits_loop
buffer base upper n precision =
    if nonzero precision || not (n == 0)
    then (let ds = digits_loop 64 base upper n in
        ds ++ replicate (pos_part precision - length ds) b'0')
    else []

-- The characters and their NUL fit __str_buff.
abbrev pub fits : List ℕ → Bool
fits ds = leb (length ds + 1) 32

-- A prefix character, where 0 stands for none.
abbrev pub prefix_chars : ℕ → List ℕ
prefix_chars prefix = if prefix == 0 then [] else prefix ∷ []

-- pad = ' ' under a positive precision.
abbrev pub pad_char : ℤ → ℕ → ℕ
pad_char precision pad = if ltb 0 (pos_part precision) then b' ' else pad

-- What __print_int and __print_unsigned do with the buffer, the sign and the padding; the number
-- of pads is that of the rounds of `while (width-- > 0)`.
unfoldable pub lay_out : List ℕ → ℤ → Bool → ℕ → ℕ → Printed
lay_out ds width align prefix pad =
    let body = reverse ds in
    let num_len = length ds in
    let signs = length (prefix_chars prefix) in
    let pads = pos_part width - num_len - signs in
    if align
    then record {
      out = prefix_chars prefix ++ (body ++ replicate pads b' ');
      count = pos (signs + num_len + pads);
    }
    else if pad == b'0'
    then record {
      out = prefix_chars prefix ++ (replicate pads pad ++ body);
      count = pos (signs + pads + num_len);
    }
    else record {
      out = replicate pads pad ++ (prefix_chars prefix ++ body);
      count = pos (pads + signs + num_len);
    }

-- |n|, unless n = -n overflows a long long.
abbrev pub magnitude : ℤ → Option ℕ
magnitude (pos n) = some n
magnitude (negsuc n) = if leb (2 ^ 63 - 1) n then none else some (n + 1)

abbrev pub sign_prefix : ℤ → ℕ → ℕ
sign_prefix (pos n) prefix = prefix
sign_prefix (negsuc n) prefix = b'-'

unfoldable pub print_unsigned : ℕ → ℤ → ℤ → Bool → ℕ → ℕ → Bool → Option Printed
print_unsigned n width precision align pad base upper =
    let ds = buffer base upper n precision in
    if fits ds then some (lay_out ds width align 0 (pad_char precision pad)) else none

-- __print_int can only print decimal.
unfoldable pub print_int : ℤ → ℤ → ℤ → Bool → ℕ → ℕ → Option Printed
print_int n width precision align prefix pad = elim (magnitude n) [
  | none ↦ none
  | some m ↦
      let ds = buffer 10 false m precision in
      if fits ds
      then some (lay_out ds width align (sign_prefix n prefix) (pad_char precision pad))
      else none
]

-- The loop makes max(width - 1, 0) rounds; the returned count is the width, whatever went out.
unfoldable pub print_char : ℕ → ℤ → Bool → Printed
print_char c width align =
    let pads = replicate (pos_part width - 1) b' ' in
    record { out = if align then c ∷ pads else pads ++ (c ∷ []); count = width }

abbrev pub take : ℕ → List ℕ → List ℕ
take zero xs = []
take (suc n) [] = []
take (suc n) (x ∷ xs) = x ∷ take n xs

-- precision >= 0 && str_len > precision, then str_len = precision
abbrev pub clip : ℤ → ℕ → ℕ
clip (pos p) len = if ltb p len then p else len
clip (negsuc p) len = len

unfoldable pub print_str : List ℕ → ℤ → ℤ → Bool → Printed
print_str s width precision align =
    let str_len = clip precision (length s) in
    let pad_len = pos_part width - str_len in
    let pads = replicate pad_len b' ' in
    let shown = take str_len s in
    record { out = if align then shown ++ pads else pads ++ shown; count = pos (str_len + pad_len) }
