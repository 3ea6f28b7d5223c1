-- ===== src/Kernel/Greeting.antt =====
-- What _start of src/kernel.c shows on the screen: its colours, which src/conlib.h defines.
use si_stultum.Base.{chars, ℕ, Option, pos, negsuc, List}
use si_stultum.Console.{Console, Renderer, set_color, puts, putln, puts_at, white, red}

abbrev pub yellow : ℕ
yellow = 0x00fbf305

abbrev pub orange : ℕ
orange = 0x00ff6403

abbrev pub magenta : ℕ
magenta = 0x00f20884

abbrev pub blue : ℕ
blue = 0x000000d3

abbrev pub purple : ℕ
purple = 0x004700a5

abbrev pub cyan : ℕ
cyan = 0x0002abea

abbrev pub green : ℕ
green = 0x001fb714

abbrev pub dark_green : ℕ
dark_green = 0x00006412

abbrev pub brown : ℕ
brown = 0x00562c05

abbrev pub tan : ℕ
tan = 0x0090713a

abbrev pub light_grey : ℕ
light_grey = 0x00c0c0c0

abbrev pub medium_grey : ℕ
medium_grey = 0x00808080

abbrev pub dark_grey : ℕ
dark_grey = 0x00404040

abbrev pub black : ℕ
black = 0x00000000

module _ (ssfn_putc : Renderer) where
  -- set_color(fg, bg); puts(str);
  unfoldable pub swatch : ℕ → ℕ → List ℕ → Console → Console
  unfolding set_color puts
  swatch fg bg str c = puts ssfn_putc str (set_color fg bg c)

  -- The colours from WHITE to BLACK.
  unfoldable pub show_colors : Console → Console
  unfolding swatch set_color putln
  show_colors c =
      let c = swatch black white (chars "  WHITE   ") c in
      let c = swatch black yellow (chars "  YELLOW  ") c in
      let c = swatch black orange (chars "  ORANGE  ") c in
      let c = swatch white red (chars "   RED    ") c in
      let c = swatch white magenta (chars " MAGENTA  ") c in
      let c = swatch white purple (chars "  PURPLE  ") c in
      let c = swatch white blue (chars "   BLUE   ") c in
      let c = putln ssfn_putc (chars "   CYAN   ") (set_color black cyan c) in
      let c = swatch white green (chars "  GREEN   ") c in
      let c = swatch white dark_green (chars "DARKGREEN ") c in
      let c = swatch white brown (chars "   BROWN  ") c in
      let c = swatch white tan (chars "   TAN    ") c in
      let c = swatch black light_grey (chars "LIGHTGREY ") c in
      let c = swatch white medium_grey (chars "MEDIUMGREY") c in
      let c = swatch white dark_grey (chars " DARKGREY ") c in
      putln ssfn_putc (chars "  BLACK  \n") (set_color white black c)

  -- The colours, and puts_at(-4, 0, "DONE"), with fuel for its position.
  unfoldable pub greet : ℕ → Console → Option Console
  unfolding show_colors puts_at
  greet fuel c = puts_at ssfn_putc fuel (negsuc 3) (pos 0) (chars "DONE") (show_colors c)
