-- ===== src/Text/Compare.antt =====
-- strcmp of src/string.c against the order of the two strings' bytes.
use si_stultum.Base.{
  ℕ, zero, suc, ◌+◌, ◌-◌, ◌<◌, true, false, some, List, [], ◌∷◌, length, ℤ, pos, sub_ℕ, pos_part,
  neg_part, leb, ◌==◌, ◌≡◌, ◌≢◌, ◌↔◌, refl, sym, ap, ◌∙◌, arith, inl, inr, Bool-cases,
  if◌then◌else◌,
}
use si_stultum.Memory.{Memory}
use si_stultum.Text.{strcmp}

-- The string at an address: its bytes, none of them 0, and the NUL behind them.
abbrev pub Spells : Memory → ℕ → List ℕ → Type 0
Spells m a [] = m a ≡ 0
Spells m a (b ∷ bs) = (m a ≡ b) × (b ≢ 0) × Spells m (a + 1) bs

-- The order of two strings: the difference of the first bytes that differ, where an end counts as 0.
unfoldable pub difference : List ℕ → List ℕ → ℤ
difference [] [] = pos 0
difference [] (y ∷ ys) = sub_ℕ 0 y
difference (x ∷ xs) [] = sub_ℕ x 0
difference (x ∷ xs) (y ∷ ys) = let rest = difference xs ys in if x == y then rest else sub_ℕ x y

-- A difference of 0 is that of equal numbers: read off the parts above and below 0.
sub_ℕ-zero : (x y : ℕ) → sub_ℕ x y ≡ pos 0 → x ≡ y
sub_ℕ-zero x y e =
    let above : pos_part (sub_ℕ x y) ≡ 0 = ap pos_part e in
    let below : neg_part (sub_ℕ x y) ≡ 0 = ap neg_part e in
    elim (Bool-cases (leb y x)) [
      | inl le ↦ let gone : x - y ≡ 0 = rw le at above in ground (arith, le, gone)
      | inr lt ↦ let gone : suc (y - x - 1) ≡ 0 = rw lt at below in absurd (omega (arith, gone))
    ]

strcmp-difference :
    (fuel : ℕ) (m : Memory) (s1 s2 : ℕ) (xs ys : List ℕ)
    → Spells m s1 xs
    → Spells m s2 ys
    → length xs < fuel
    → strcmp fuel m s1 s2 ≡ some (difference xs ys)
unfolding strcmp difference
strcmp-difference zero m s1 s2 xs ys left right enough = absurd (omega arith)
strcmp-difference (suc fuel) m s1 s2 [] [] left right enough = rw (left, right) refl
strcmp-difference (suc fuel) m s1 s2 [] (y ∷ ys) left right enough =
    let no : (0 == y) ≡ false = ground (arith, right.1) in rw (left, right.0, no) refl
strcmp-difference (suc fuel) m s1 s2 (x ∷ xs) [] left right enough =
    let no : (x == 0) ≡ false = ground (arith, left.1) in rw (left.0, right, no) refl
strcmp-difference (suc fuel) m s1 s2 (x ∷ xs) (y ∷ ys) left right enough =
    elim (Bool-cases (x == y)) [
      | inl same ↦
          let more : (x == 0) ≡ false = ground (arith, left.1) in
          let rest =
            strcmp-difference fuel m (s1 + 1) (s2 + 1) xs ys left.2 right.2 (omega arith) in
          rw (left.0, right.0, same, more, rest) refl
      | inr other ↦ rw (left.0, right.0, other) refl
    ]

difference-eq :
    (xs ys : List ℕ) (m : Memory) (a b : ℕ)
    → Spells m a xs
    → Spells m b ys
    → difference xs ys ≡ pos 0
    → xs ≡ ys
unfolding difference
difference-eq [] [] m a b left right e = refl
difference-eq [] (y ∷ ys) m a b left right e = absurd (right.1 (sym (sub_ℕ-zero 0 y e)))
difference-eq (x ∷ xs) [] m a b left right e = absurd (left.1 (sub_ℕ-zero x 0 e))
difference-eq (x ∷ xs) (y ∷ ys) m a b left right e = elim (Bool-cases (x == y)) [
  | inl same ↦
      let head : x ≡ y = ground (arith, same) in
      let tail = difference-eq xs ys m (a + 1) (b + 1) left.2 right.2 (rw same at e) in
      ap (λ z. z ∷ xs) head ∙ ap (λ zs. y ∷ zs) tail
  | inr other ↦ absurd (ground (arith, other, sub_ℕ-zero x y (rw other at e)))
]

difference_refl : (xs : List ℕ) → difference xs xs ≡ pos 0
unfolding difference
difference_refl [] = refl
difference_refl (x ∷ xs) = let same : (x == x) ≡ true = ground arith in rw same (difference_refl xs)

-- With fuel for the bytes of the first string and its NUL, strcmp returns the difference of the first bytes that
-- differ, where the end of a string counts as 0; it is 0 exactly if the strings are equal.
pub strcmp_lem :
    (fuel : ℕ) (m : Memory) (s1 s2 : ℕ) (xs ys : List ℕ)
    → Spells m s1 xs
    → Spells m s2 ys
    → length xs < fuel
    → (strcmp fuel m s1 s2 ≡ some (difference xs ys)) × ((difference xs ys ≡ pos 0) ↔ (xs ≡ ys))
strcmp_lem fuel m s1 s2 xs ys left right enough = (
  strcmp-difference fuel m s1 s2 xs ys left right enough,
  (difference-eq xs ys m s1 s2 left right, λ e. ap (difference xs) (sym e) ∙ difference_refl xs),
)
