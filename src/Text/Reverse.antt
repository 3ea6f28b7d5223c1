-- ===== src/Text/Reverse.antt =====
-- strrev turns the bytes of a string round, in place.
use si_stultum.Base.{
  ℕ, zero, suc, ◌+◌, ◌-◌, ◌≤◌, ◌<◌, some, ◌≡◌, ◌≢◌, refl, arith, ◌==◌, ◌⊎◌, inl, inr, lt-or-ge,
  lt→ltb, le→ltb, le→leb, u32, ◌^◌, Bool-cases,
}
use si_stultum.Base.{◌∙◌, ap}
use si_stultum.Memory.{Memory, write}
use si_stultum.Text.{strrev, strrev_loop, swap}
use si_stultum.Text.Length.{IsString, strlen-IsString}

swap_left : (m : Memory) (str i j : ℕ) → swap m str i j (str + i) ≡ m (str + j)
unfolding swap write
swap_left m str i j = elim (Bool-cases (str + i == str + j)) [
  | inl same ↦ let e : str + i ≡ str + j = ground arith in ground (arith, ap m e)
  | inr other ↦ ground arith
]

swap_right : (m : Memory) (str i j : ℕ) → swap m str i j (str + j) ≡ m (str + i)
unfolding swap write
swap_right m str i j = ground arith

swap_other : (m : Memory) (str i j a : ℕ) → a ≢ str + i → a ≢ str + j → swap m str i j a ≡ m a
unfolding swap write
swap_other m str i j a p q = ground arith

module _ (str : ℕ) where
  strrev_loop-suc :
      (left : ℕ) (m : Memory) (i j : ℕ)
      → i < j
      → strrev_loop (suc left) m str i j ≡ strrev_loop left (swap m str i j) str (i + 1) (j - 1)
  unfolding strrev_loop
  strrev_loop-suc left m i j h = rw (lt→ltb i j h)

  strrev_loop_stop : (left : ℕ) (m : Memory) (i j : ℕ) → j ≤ i → strrev_loop left m str i j ≡ m
  unfolding strrev_loop
  strrev_loop_stop zero m i j h = refl
  strrev_loop_stop (suc left) m i j h = rw (le→ltb i j h)

  -- What lies outside the bytes from i to j stays.
  strrev_loop-outside :
      (left : ℕ) (m : Memory) (i j a : ℕ)
      → i ≤ j + 1
      → (a < str + i) ⊎ (str + j < a)
      → strrev_loop left m str i j a ≡ m a
  strrev_loop-outside zero m i j a le out = unfold strrev_loop in refl
  strrev_loop-outside (suc left) m i j a le out = elim (lt-or-ge i j) [
    | inl more ↦ rw (strrev_loop-suc left m i j more) (
        strrev_loop-outside left (swap m str i j) (i + 1) (j - 1) a (omega arith) (omega arith)
        ∙ swap_other m str i j a (omega arith) (omega arith))
    | inr done ↦ rw (strrev_loop_stop (suc left) m i j done)
  ]

  -- The bytes from i to j are turned round.
  strrev_loop-inside :
      (left : ℕ) (m : Memory) (i j k : ℕ)
      → j ≤ i + left
      → i ≤ k
      → k ≤ j
      → strrev_loop left m str i j (str + k) ≡ m (str + (i + j - k))
  strrev_loop-inside zero m i j k h lo hi =
      rw (strrev_loop_stop zero m i j (omega arith)) (ap (λ x. m (str + x)) (omega arith))
  strrev_loop-inside (suc left) m i j k h lo hi = elim (lt-or-ge i j) [
    | inl more ↦ rw (strrev_loop-suc left m i j more) (elim (Bool-cases (k == i)) [
      | inl first ↦
          let e : k ≡ i = ground arith in
          let far : j ≡ i + j - i = omega arith in
          rw e (
            strrev_loop-outside left _ (i + 1) (j - 1) (str + i) (omega arith) (omega arith)
            ∙ swap_left m str i j
            ∙ ap (λ x. m (str + x)) far)
      | inr later ↦ elim (Bool-cases (k == j)) [
        | inl last ↦
            let e : k ≡ j = ground arith in
            let near : i ≡ i + j - j = omega arith in
            rw e (
              strrev_loop-outside left _ (i + 1) (j - 1) (str + j) (omega arith) (omega arith)
              ∙ swap_right m str i j
              ∙ ap (λ x. m (str + x)) near)
        | inr inner ↦
            let lo' : i < k = ground arith in
            let hi' : k < j = ground arith in
            let e : i + 1 + (j - 1) - k ≡ i + j - k = omega arith in
            strrev_loop-inside left (swap m str i j) (i + 1) (j - 1) k (omega arith) (omega arith)
              (omega arith)
            ∙ swap_other m str i j _ (omega arith) (omega arith)
            ∙ ap (λ x. m (str + x)) e
      ]
    ])
    | inr done ↦ rw (strrev_loop_stop (suc left) m i j done) (ap (λ x. m (str + x)) (omega arith))
  ]

-- `out` is `m` with the n bytes at `str` turned round, and no other byte changed.
pub record IsReversed (m : Memory) (str n : ℕ) (out : Memory) : Type 0 where
  pub inside : (k : ℕ) → k < n → out (str + k) ≡ m (str + (n - 1 - k))
  pub outside : (a : ℕ) → (a < str) ⊎ (str + n ≤ a) → out a ≡ m a

-- At a string of at most 2 ^ 31 bytes and with more fuel than it has bytes, strrev returns, and has turned the
-- bytes of the string round in place and changed no other byte.
pub strrev-IsReversed :
    (fuel : ℕ) (m : Memory) (str n : ℕ)
    → IsString m str n
    → n < fuel
    → n ≤ 2 ^ 31
    → (out : Memory) × (strrev fuel m str ≡ some out) × IsReversed m str n out
unfolding strrev
strrev-IsReversed fuel m str n s h few = elim (Bool-cases (n == 0)) [
  | inl none_left ↦ (
    m,
    rw (strlen-IsString fuel m str n s h, strrev) (ground arith),
    record { inside = λ k l. absurd (ground arith); outside = λ a out. refl },
  )
  | inr some_left ↦ (
    strrev_loop n m str 0 (n - 1),
    let word : u32 n ≡ n = omega arith in
        rw
          (
            strlen-IsString fuel m str n s h,
            strrev,
            word,
            lt→ltb 0 n (ground arith),
            le→leb n (2 ^ 31) few,
          )
          refl,
    record {
      inside = λ k l.
          strrev_loop-inside str n m 0 (n - 1) k (omega arith) (omega arith) (omega arith)
          ∙ ap (λ x. m (str + x)) (omega arith);
      outside = λ a out. strrev_loop-outside str n m 0 (n - 1) a (omega arith) (ground arith);
    },
  )
]
