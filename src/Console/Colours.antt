-- ===== src/Console/Colours.antt =====
-- puts_n, putsx and ERR of src/conlib.c: several strings in other colours.
use si_stultum.Base.{ℕ, ◌≡◌, refl, sym, ap, ◌∙◌, List, [], ◌∷◌, ◌++◌}
use si_stultum.Console.{Console, Renderer, puts, puts_n, putsx, set_color}

-- The strings in a row.
unfoldable pub joined : List (List ℕ) → List ℕ
joined [] = []
joined (cs ∷ rest) = cs ++ joined rest

puts-append :
    (render : Renderer) (cs ds : List ℕ) (s : Console)
    → puts render (cs ++ ds) s ≡ puts render ds (puts render cs s)
unfolding puts
puts-append render [] ds s = refl
puts-append render (c ∷ cs) ds s = puts-append render cs ds _

puts_n-puts :
    (render : Renderer) (args : List (List ℕ)) (s : Console)
    → puts_n render args s ≡ puts render (joined args) s
unfolding puts_n joined puts
puts_n-puts render [] s = refl
puts_n-puts render (cs ∷ rest) s =
    puts_n-puts render rest (puts render cs s) ∙ sym (puts-append render cs (joined rest) s)

-- putsx prints what puts prints for the strings in a row, in the given colours, and then puts the
-- colours back.
pub putsx_lem :
    (render : Renderer) (fg bg : ℕ) (args : List (List ℕ)) (s : Console)
    → putsx render fg bg args s
      ≡ set_color s.fg s.bg (puts render (joined args) (set_color fg bg s))
unfolding putsx
putsx_lem render fg bg args s =
    ap (set_color s.fg s.bg) (puts_n-puts render args (set_color fg bg s))
