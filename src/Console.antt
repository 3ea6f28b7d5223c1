-- ===== src/Console.antt =====
-- The text console of src/conlib.c and src/conlib.h. The font renderer, ssfn_putc, is a parameter.
-- A string is the list of its bytes before the NUL.
pub mod Cursor
pub mod Colours
pub mod Screen
mod Tests
use si_stultum.Base.{ℕ, zero, suc, ◌+◌, ◌-◌, ◌*◌, ◌/◌, ◌%◌, ◌^◌, true, false, Option, none, some}
use si_stultum.Base.{◌==◌, leb, ltb, if◌then◌else◌, List, [], ◌∷◌, u16, u32, ℤ, pos, negsuc, ◌+ℤ◌}
use si_stultum.Memory.{Memory, store32}

-- ssfn_dst, the width and height of the font ssfn_src, and physical memory with the framebuffer.
-- The int coordinates are never negative, and stay below 2 ^ 31.
pub record Console : Type 0 where
  pub font_width : ℕ
  pub font_height : ℕ
  pub ptr : ℕ
  pub w : ℕ
  pub h : ℕ
  pub p : ℕ
  pub x : ℕ
  pub y : ℕ
  pub fg : ℕ
  pub bg : ℕ
  pub memory : Memory

-- The renderer draws a character and moves the cursor.
abbrev pub Renderer : Type 0
Renderer = ℕ → Console → Console

abbrev pub white : ℕ
white = 0xffffffff

abbrev pub red : ℕ
red = 0x00dd0907

unfoldable pub conlib_init : (font_width font_height fbbase w h p : ℕ) → Memory → Console
conlib_init font_width font_height fbbase w h p m = record {
  font_width = font_width;
  font_height = font_height;
  ptr = fbbase;
  w = w;
  h = h;
  p = u16 p;
  x = 0;
  y = 0;
  fg = 0xffffffff;
  bg = 0;
  memory = m;
}

unfoldable pub set_color : ℕ → ℕ → Console → Console
set_color fg bg s = record s { fg = fg; bg = bg }

unfoldable pub set_bg : ℕ → Console → Console
set_bg color s = record s { bg = color }

unfoldable pub set_fg : ℕ → Console → Console
set_fg color s = record s { fg = color }

unfoldable pub get_bg : Console → ℕ
get_bg s = s.bg

unfoldable pub get_fg : Console → ℕ
get_fg s = s.fg

-- The conversion of a char, which is signed, to the renderer's uint32_t.
unfoldable pub of_char : ℕ → ℕ
of_char c = if ltb c 0x80 then c else c + (2 ^ 32 - 2 ^ 8)

-- The cursor of putc behind the last column.
unfoldable pub wrap : Console → Console
wrap s = if leb s.w s.x then record s { y = s.y + s.font_height; x = 0 } else s

module _ (ssfn_putc : Renderer) where
  unfoldable pub putc : ℕ → Console → Console
  unfolding wrap
  putc ch s = wrap (
      if ch == b'\n'
      then record s { y = s.y + s.font_height; x = 0 }
      else if ch == b'\r'
      then record s { x = 0 }
      else if ch == b'\t'
      then s
      else ssfn_putc ch s)

  unfoldable pub puts : List ℕ → Console → Console
  unfolding putc of_char
  puts [] s = s
  puts (c ∷ cs) s = puts cs (putc (of_char c) s)

  unfoldable pub putln : List ℕ → Console → Console
  unfolding puts putc
  putln cs s = putc b'\n' (puts cs s)

  -- The loop of puts_n and putsx over the variable arguments.
  unfoldable pub puts_n : List (List ℕ) → Console → Console
  unfolding puts
  puts_n [] s = s
  puts_n (cs ∷ rest) s = puts_n rest (puts cs s)

  unfoldable pub putsx : ℕ → ℕ → List (List ℕ) → Console → Console
  unfolding set_color puts_n
  putsx fg bg args s = set_color s.fg s.bg (puts_n args (set_color fg bg s))

  -- The macro ERR.
  unfoldable pub err : List (List ℕ) → Console → Console
  unfolding putsx
  err args s = putsx white red args s

-- while (x < 0) x += step; `none` means that the fuel ran out.
unfoldable pub from_end : ℕ → ℕ → ℤ → Option ℕ
from_end fuel step (pos n) = some n
from_end zero step (negsuc n) = none
from_end (suc fuel) step (negsuc n) = from_end fuel step (negsuc n +ℤ pos step)

module _ (ssfn_putc : Renderer) where
  unfoldable pub puts_at : ℕ → ℤ → ℤ → List ℕ → Console → Option Console
  unfolding from_end puts
  puts_at fuel x y str s = elim (from_end fuel (s.w / s.font_width) x) [
    | none ↦ none
    | some column ↦ elim (from_end fuel (s.h / s.font_height) y) [
      | none ↦ none
      | some row ↦
          let s' =
            puts ssfn_putc str (record s { x = column * s.font_width; y = row * s.font_height }) in
          some (record s' { x = s.x; y = s.y })
    ]
  ]

-- while (len-- > 0) *ptr++ = bg;
unfoldable pub fill : ℕ → ℕ → ℕ → Memory → Memory
fill zero ptr bg m = m
fill (suc len) ptr bg m = fill len (ptr + 4) bg (store32 ptr bg m)

unfoldable pub cls : Console → Console
unfolding fill
cls s = record s { memory = fill (u32 (s.w * s.h)) s.ptr s.bg s.memory }
