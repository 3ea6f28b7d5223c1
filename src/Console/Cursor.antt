-- ===== src/Console/Cursor.antt =====
-- putc and puts of src/conlib.c: where the cursor goes, on a grid of character cells.
use si_stultum.Base.{ℕ, ◌+◌, ◌*◌, ◌≤◌, ◌<◌, Bool, false, ◌≡◌, ◌≢◌, refl, ap, arith}
use si_stultum.Base.{◌==◌, leb, if◌then◌else◌, List, [], ◌∷◌, Bool-cases, inl, inr, ◌∙◌}
use si_stultum.Console.{Console, Renderer, wrap, putc, puts, of_char}

-- What the console relies on in the renderer with a font whose glyphs are all `width` pixels wide: a
-- character with a glyph moves the cursor by the width of one, another one leaves it, and nothing
-- but the cursor and the memory changes.
pub record IsMonospaced (render : Renderer) (has_glyph : ℕ → Bool) (width : ℕ) : Type 0 where
  pub moved : (ch : ℕ) (s : Console) → (render ch s).x ≡ (if has_glyph ch then s.x + width else s.x)
  pub same_row : (ch : ℕ) (s : Console) → (render ch s).y ≡ s.y
  pub same_w : (ch : ℕ) (s : Console) → (render ch s).w ≡ s.w
  pub same_height : (ch : ℕ) (s : Console) → (render ch s).font_height ≡ s.font_height
  pub same_colours : (ch : ℕ) (s : Console) → ((render ch s).fg ≡ s.fg) × ((render ch s).bg ≡ s.bg)

-- A cell of the grid.
pub record Cell : Type 0 where
  pub column : ℕ
  pub row : ℕ

-- The cell behind a character, on a grid of so many columns.
unfoldable pub advance : (ℕ → Bool) → ℕ → ℕ → Cell → Cell
advance has_glyph columns ch cell =
    if ch == b'\n'
    then record { column = 0; row = cell.row + 1 }
    else if ch == b'\r'
    then record { column = 0; row = cell.row }
    else if ch == b'\t'
    then cell
    else if has_glyph ch
    then (if cell.column + 1 == columns
        then record { column = 0; row = cell.row + 1 }
        else record { column = cell.column + 1; row = cell.row })
    else cell

unfoldable pub advance_all : (ℕ → Bool) → ℕ → List ℕ → Cell → Cell
advance_all has_glyph columns [] cell = cell
advance_all has_glyph columns (c ∷ cs) cell =
    advance_all has_glyph columns cs (advance has_glyph columns (of_char c) cell)

-- The pixel cursor stands at a cell of a grid whose last column begins on the screen and ends at its
-- edge or behind it.
pub record IsAt (width columns : ℕ) (cell : Cell) (s : Console) : Type 0 where
  pub x_lem : s.x ≡ width * cell.column
  pub y_lem : s.y ≡ s.font_height * cell.row
  pub on_grid : cell.column < columns
  pub reaches : s.w ≤ width * columns
  pub last_begins : width * columns < s.w + width

mul-next : (a b : ℕ) → a * (b + 1) ≡ a * b + a
mul-next a b = grind arith

mul_mono : (width a b : ℕ) → a ≤ b → width * a ≤ width * b
mul_mono width a b h = grind arith

-- The cursor is behind the edge exactly if the last column is full.
full_lem :
    (width columns column w : ℕ)
    → column < columns
    → w ≤ width * columns
    → width * columns < w + width
    → leb w (width * column + width) ≡ (column + 1 == columns)
full_lem width columns column w on reaches last = elim (Bool-cases (column + 1 == columns)) [
  | inl full ↦
      let e : column + 1 ≡ columns = ground arith in
      ground (arith, mul-next width column, ap (λ c. width * c) e)
  | inr room ↦
      let ne : column + 1 ≢ columns = ground arith in
      ground (
        arith,
        mul-next width column,
        mul-next width (column + 1),
        mul_mono width (column + 1 + 1) columns (omega arith),
      )
]

module _ (width columns : ℕ) where
  -- A cursor on the grid is before the edge, so it stays.
  settle :
      (cell : Cell) (s : Console) → IsAt width columns cell s → IsAt width columns cell (wrap s)
  unfolding wrap
  settle cell s at =
      let before : leb s.w s.x ≡ false = ground (
        arith,
        mul-next width cell.column,
        mul_mono width (cell.column + 1) columns (omega arith),
      ) in
      rw before at

  return-IsAt :
      (row : ℕ) (s : Console)
      → 0 < columns
      → s.w ≤ width * columns
      → width * columns < s.w + width
      → s.y ≡ s.font_height * row
      → s.x ≡ 0
      → IsAt width columns (record { column = 0; row = row }) s
  return-IsAt row s some reaches last y x = record {
    x_lem = grind (arith, x);
    y_lem = y;
    on_grid = some;
    reaches = reaches;
    last_begins = last;
  }

  -- Behind a glyph.
  beyond :
      (cell : Cell) (s t : Console)
      → IsAt width columns cell s
      → t.x ≡ s.x + width
      → t.y ≡ s.y
      → t.w ≡ s.w
      → t.font_height ≡ s.font_height
      → IsAt width columns
          (if cell.column + 1 == columns
            then record { column = 0; row = cell.row + 1 }
            else record { column = cell.column + 1; row = cell.row })
          (wrap t)
  unfolding wrap
  beyond cell s t at x y w height =
      let edge : leb t.w t.x ≡ (cell.column + 1 == columns) =
        rw (x, w, at.x_lem)
          (full_lem width columns cell.column s.w at.on_grid at.reaches at.last_begins) in
      elim (Bool-cases (cell.column + 1 == columns)) [
        | inl full ↦
            rw (edge, full)
              (return-IsAt (cell.row + 1) (record t { y = t.y + t.font_height; x = 0 })
                (omega (arith, at.on_grid)) (omega (arith, w, at.reaches))
                (omega (arith, w, at.last_begins))
                (grind (arith, y, height, at.y_lem, mul-next t.font_height cell.row)) refl)
        | inr room ↦
            rw (edge, room)
              (record {
                x_lem = omega (arith, x, at.x_lem, mul-next width cell.column);
                y_lem = rw (y, height) at.y_lem;
                on_grid = ground (arith, at.on_grid);
                reaches = omega (arith, w, at.reaches);
                last_begins = omega (arith, w, at.last_begins);
              })
      ]

same-IsAt :
    {width columns : ℕ} {cell : Cell} {s t : Console}
    → IsAt width columns cell s
    → t.x ≡ s.x
    → t.y ≡ s.y
    → t.w ≡ s.w
    → t.font_height ≡ s.font_height
    → IsAt width columns cell t
same-IsAt at x y w height = record {
  x_lem = x ∙ at.x_lem;
  y_lem = rw (y, height) at.y_lem;
  on_grid = at.on_grid;
  reaches = omega (arith, w, at.reaches);
  last_begins = omega (arith, w, at.last_begins);
}

putc-IsAt :
    (render : Renderer) (has_glyph : ℕ → Bool) (width columns ch : ℕ) (cell : Cell) (s : Console)
    → IsMonospaced render has_glyph width
    → IsAt width columns cell s
    → IsAt width columns (advance has_glyph columns ch cell) (putc render ch s)
unfolding putc advance
putc-IsAt render has_glyph width columns ch cell s mono at = elim (Bool-cases (ch == b'\n')) [
  | inl line ↦ rw line (
      settle width columns _ _ (
        return-IsAt width columns (cell.row + 1) (record s { y = s.y + s.font_height; x = 0 })
          (omega (arith, at.on_grid)) at.reaches at.last_begins
          (grind (arith, at.y_lem, mul-next s.font_height cell.row)) refl))
  | inr no_line ↦ rw no_line (elim (Bool-cases (ch == b'\r')) [
    | inl back ↦ rw back (
        settle width columns _ _ (
          return-IsAt width columns cell.row (record s { x = 0 }) (omega (arith, at.on_grid))
            at.reaches at.last_begins at.y_lem refl))
    | inr no_back ↦ rw no_back (elim (Bool-cases (ch == b'\t')) [
      | inl tab ↦ rw tab (settle width columns cell s at)
      | inr no_tab ↦ rw no_tab (elim (Bool-cases (has_glyph ch)) [
        | inl drawn ↦
            let moved = mono.moved ch s in
            rw drawn (
              beyond width columns cell s (render ch s) at (rw drawn at moved) (mono.same_row ch s)
                (mono.same_w ch s) (mono.same_height ch s))
        | inr blank ↦
            let moved = mono.moved ch s in
            rw blank (
              settle width columns cell (render ch s) (
                same-IsAt at (rw blank at moved) (mono.same_row ch s) (mono.same_w ch s)
                  (mono.same_height ch s)))
      ])
    ])
  ])
]

-- On a screen with a grid of columns, with a font whose glyphs are all as wide as a column, puts moves
-- the cursor over the grid like a type-writer: behind a glyph to the next column or, behind the last
-- one, to the next row; a line feed leads to the first column of the next row, and a carriage return to
-- that of this one.
pub puts-IsAt :
    (render : Renderer) (has_glyph : ℕ → Bool) (width columns : ℕ) (str : List ℕ) (cell : Cell)
    (s : Console)
    → IsMonospaced render has_glyph width
    → IsAt width columns cell s
    → IsAt width columns (advance_all has_glyph columns str cell) (puts render str s)
unfolding puts advance_all
puts-IsAt render has_glyph width columns [] cell s mono at = at
puts-IsAt render has_glyph width columns (c ∷ cs) cell s mono at =
    puts-IsAt render has_glyph width columns cs _ _ mono
      (putc-IsAt render has_glyph width columns (of_char c) cell s mono at)
