-- ===== src/Console/Tests.antt =====
-- The console with a small renderer, which fills no pixels: printable characters are 8 pixels wide.
use si_stultum.Base.{
  ℕ, ◌+◌, ◌*◌, ◌≤◌, ◌<◌, ◌≡◌, refl, arith, ◌⊎◌, leb, ltb, if◌then◌else◌, Bool, ◌&&◌,
}
use si_stultum.Base.{List, [], ◌∷◌}
use si_stultum.Memory.{load32}
use si_stultum.Console.{Console, Renderer, puts, cls}
use si_stultum.Console.Cursor.{IsMonospaced, IsAt, advance_all, puts-IsAt}
use si_stultum.Console.Screen.{cls_lem}

abbrev printable : ℕ → Bool
printable ch = leb 32 ch && ltb ch 127

abbrev render : Renderer
render ch s = record s { x = if printable ch then s.x + 8 else s.x }

-- 100 by 32 pixels, so that the thirteenth column ends behind the edge.
abbrev screen : Console
screen = record {
  font_width = 8;
  font_height = 16;
  ptr = 4096;
  w = 100;
  h = 32;
  p = 400;
  x = 80;
  y = 0;
  fg = 0xffffffff;
  bg = 0;
  memory = λ a. 7;
}

render-IsMonospaced : IsMonospaced render printable 8
render-IsMonospaced = record {
  moved = λ ch s. refl;
  same_row = λ ch s. refl;
  same_w = λ ch s. refl;
  same_height = λ ch s. refl;
  same_colours = λ ch s. (refl, refl);
}

-- "Hello\nyou"
abbrev hello : List ℕ
hello = 72 ∷ (101 ∷ (108 ∷ (108 ∷ (111 ∷ (10 ∷ (121 ∷ (111 ∷ (117 ∷ []))))))))

puts-IsAt_example :
    IsAt 8 13
      (advance_all printable 13 hello (record { column = 10; row = 0 }))
      (puts render hello screen)
puts-IsAt_example =
    puts-IsAt render printable 8 13 hello (record { column = 10; row = 0 }) screen
      render-IsMonospaced
      (record {
        x_lem = refl;
        y_lem = refl;
        on_grid = omega arith;
        reaches = omega arith;
        last_begins = omega arith;
      })

cls_lem_example :
    ((k : ℕ) → k < 100 * 32 → load32 (4096 + 4 * k) (cls screen).memory ≡ 0)
    × ((a : ℕ) → (a < 4096) ⊎ (4096 + 4 * (100 * 32) ≤ a) → (cls screen).memory a ≡ 7)
cls_lem_example = cls_lem screen (omega arith) (omega arith)
