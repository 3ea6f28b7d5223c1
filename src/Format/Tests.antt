-- ===== src/Format/Tests.antt =====
-- The theorems on formatted output at concrete arguments.
use si_stultum.Base.{chars, refl, some}
use si_stultum.Format.{Printed}
use si_stultum.Format.Checked.{is_checked, checked_loop, proto_print-is_checked}
use si_stultum.Format.Directive.{
  Arg, word, text, read_directive, read_flags, apply_flag, read_width, read_precision, read_int,
  read_length,
}
use si_stultum.Base.{ℕ, ◌+◌, ◌≤◌, ◌^◌, ◌≡◌, ◌↔◌, true, false, none, arith, pos, negsuc}
use si_stultum.Base.{List, [], ◌∷◌, ◌++◌, length}
use si_stultum.Format.{digits_loop, lay_out, prefix_chars, print_unsigned}
use si_stultum.Format.Directive.{proto_print}
use si_stultum.Format.Digits.{value, value-digits_loop}
use si_stultum.Format.Width.{FillsField, lay_out-FillsField}
use si_stultum.Format.Printing.{IsPlain, print_unsigned_iff, proto_print_dangling}

abbrev twelve : List ℕ
twelve = b'2' ∷ (b'1' ∷ [])

abbrev greeting : List ℕ
greeting = b'H' ∷ (b'i' ∷ [])

value-digits_loop_example : value 16 (digits_loop 64 16 true 48879) ≡ 48879
value-digits_loop_example =
    value-digits_loop 64 16 true 48879 (omega arith) (omega arith) (omega arith)

print_unsigned_iff_example :
    (print_unsigned 4294967295 (negsuc 0) (negsuc 0) false b' ' 2 false ≡ none)
    ↔ (2 ^ 31 ≤ 4294967295)
print_unsigned_iff_example =
    print_unsigned_iff 4294967295 (negsuc 0) false b' ' 2 false (omega arith) (omega arith)

lay_out-FillsField_example :
    FillsField
      (pos 6)
      (length (prefix_chars b'-') + length twelve)
      (lay_out twelve (pos 6) false b'-' b'0')
lay_out-FillsField_example = lay_out-FillsField twelve (pos 6) false b'-' b'0'

greeting-IsPlain : IsPlain greeting
greeting-IsPlain = (omega arith, (omega arith, tt))

proto_print_dangling_example : proto_print (greeting ++ (b'%' ∷ [])) [] ≡ none
proto_print_dangling_example = proto_print_dangling greeting [] greeting-IsPlain

-- "%3d:%s"
abbrev entry_format : List ℕ
entry_format = chars "%3d:%s"

abbrev entry_args : List Arg
entry_args = word 7 ∷ (text (chars "seven") ∷ [])

entry_checked : is_checked entry_format entry_args ≡ true
unfolding is_checked checked_loop read_directive read_flags apply_flag read_width read_precision
    read_int read_length
entry_checked = refl

proto_print-is_checked_example : (p : Printed) × (proto_print entry_format entry_args ≡ some p)
proto_print-is_checked_example = proto_print-is_checked entry_format entry_args entry_checked
