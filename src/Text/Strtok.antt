-- ===== src/Text/Strtok.antt =====
-- What strtok of src/string.c returns.
use si_stultum.Base.{
  ℕ, zero, suc, ◌+◌, ◌-◌, ◌≤◌, ◌<◌, Bool, true, false, Option, none, some, ◌≡◌, ◌≢◌, refl, ap,
  arith, ◌∙◌,
}
use si_stultum.Base.{leb, ◌==◌, ◌||◌, not, if◌then◌else◌, Bool-cases, inl, inr, ◌⊎◌}
use si_stultum.Memory.{Memory, write}
use si_stultum.Text.Length.{IsString}
use si_stultum.Text.Search.{search, IsFound, search-IsFound}
use si_stultum.Text.Token.{
  Tokens, skip, find_end, cut, strtok, among, tail-IsString, is_delim-among, ends_token-among,
}

among_nul : (m : Memory) (a d : ℕ) → IsString m a d → among m a d 0 ≡ false
unfolding among
among_nul m a zero s = refl
among_nul m a (suc d) s =
    let first : m a ≢ 0 = λ e. s.bytes 0 (omega arith) (ap m (omega arith) ∙ e) in
    let test : (0 == m a) ≡ false = ground arith in
    rw test (among_nul m (a + 1) d (tail-IsString m a d s))

abbrev other : Memory → ℕ → ℕ → ℕ → Bool
other m delim d c = not (among m delim d c)

abbrev ending : Memory → ℕ → ℕ → ℕ → Bool
ending m delim d c = among m delim d c || c == 0

module _ (few : ℕ) (m : Memory) (delim d : ℕ) (delims : IsString m delim d) (enough : d < few) where
  skip-search : (fuel s : ℕ) → skip few fuel m delim s ≡ search (other m delim d) fuel m s
  unfolding skip search
  skip-search zero s = refl
  skip-search (suc fuel) s = elim (Bool-cases (among m delim d (m s))) [
    | inl delimiter ↦
        rw (skip, is_delim-among few m delim d (m s) delims enough, delimiter)
          (skip-search fuel (s + 1))
    | inr token ↦ rw (skip, is_delim-among few m delim d (m s) delims enough, token) refl
  ]

  find_end-search : (fuel s : ℕ) → find_end few fuel m delim s ≡ search (ending m delim d) fuel m s
  unfolding find_end search
  find_end-search zero s = refl
  find_end-search (suc fuel) s = elim (Bool-cases (among m delim d (m s) || m s == 0)) [
    | inl ends ↦ rw (find_end, ends_token-among few m delim d (m s) delims enough, ends) refl
    | inr inside ↦
        rw (find_end, ends_token-among few m delim d (m s) delims enough, inside)
          (find_end-search fuel (s + 1))
  ]

-- The token of the string of n bytes at s: bytes j to e - 1 of it. Before them there are delimiters alone,
-- and among them none; behind them the string ends, and `last` is NULL, or there is a delimiter, which is
-- overwritten with a NUL, and `last` is the address behind it.
pub record IsToken (m : Memory) (delim d s n : ℕ) (out : Tokens × ℕ) : Type 0 where
  pub j : ℕ
  pub e : ℕ
  pub some_byte : j < e
  pub within : e ≤ n
  pub before : (i : ℕ) → i < j → among m delim d (m (s + i)) ≡ true
  pub inside : (i : ℕ) → j ≤ i → i < e → among m delim d (m (s + i)) ≡ false
  pub begins : out.1 ≡ s + j
  pub ends :
      ((e ≡ n) × (out.0 ≡ record { memory = m; last = 0 }))
      ⊎ ((among m delim d (m (s + e)) ≡ true)
          × (out.0 ≡ record { memory = write (s + e) 0 m; last = s + e + 1 }))

-- The string has delimiters alone.
pub record IsExhausted (m : Memory) (delim d s n : ℕ) (out : Tokens × ℕ) : Type 0 where
  pub all : (i : ℕ) → i < n → among m delim d (m (s + i)) ≡ true
  pub none_left : out ≡ (record { memory = m; last = 0 }, 0)

drop-IsString : (m : Memory) (s n k : ℕ) → k ≤ n → IsString m s n → IsString m (s + k) (n - k)
drop-IsString m s n k h str = record {
  bytes = λ i l e. str.bytes (k + i) (omega arith) (ap m (omega arith) ∙ e);
  nul = ap m (omega arith) ∙ str.nul;
}

not-true : (b : Bool) → not b ≡ true → b ≡ false
not-true b h = ground arith

not-false : (b : Bool) → not b ≡ false → b ≡ true
not-false b h = ground arith

or-left_true : (a b : Bool) → a || b ≡ true → b ≡ false → a ≡ true
or-left_true a b h no_b = ground arith

or-left_false : (a b : Bool) → a || b ≡ false → a ≡ false
or-left_false a b h = ground arith

-- strtok from `start` on, which is not NULL.
unfoldable strtok_at : ℕ → Tokens → (start delim : ℕ) → Option (Tokens × ℕ)
strtok_at fuel t start delim = elim (skip fuel fuel t.memory delim start) [
  | none ↦ none
  | some p ↦
      if t.memory p == 0
      then some (record t { last = 0 }, 0)
      else elim (find_end fuel fuel t.memory delim (p + 1)) [
        | none ↦ none
        | some e ↦ some (cut t p e, p)
      ]
]

strtok-strtok_at :
    (fuel : ℕ) (t : Tokens) (s delim start : ℕ)
    → start ≡ (if s == 0 then t.last else s)
    → start ≢ 0
    → strtok fuel t s delim ≡ strtok_at fuel t start delim
unfolding strtok strtok_at
strtok-strtok_at fuel t s delim start e some_start =
    let here : (start == 0) ≡ false = ground arith in rw (strtok, ← e, here) refl

module _ (fuel d : ℕ) (t : Tokens) (delim start n : ℕ) (delims : IsString t.memory delim d)
    (short : d < fuel) (str : IsString t.memory start n) (enough : n < fuel) where
  first_byte :
      IsFound (other t.memory delim d) t.memory start n (skip fuel fuel t.memory delim start)
  first_byte = rw (skip-search fuel t.memory delim d delims short fuel start) (
      search-IsFound (other t.memory delim d) fuel t.memory start n
        (ap not (among_nul t.memory delim d delims)) str enough)

  end_byte :
      (p : ℕ)
      → p ≤ n
      → IsFound
          (ending t.memory delim d)
          t.memory
          (start + p)
          (n - p)
          (find_end fuel fuel t.memory delim (start + p))
  end_byte p h = rw (find_end-search fuel t.memory delim d delims short fuel (start + p)) (
      search-IsFound (ending t.memory delim d) fuel t.memory (start + p) (n - p) (ground arith)
        (drop-IsString t.memory start n p h str) (omega arith))

  exhausted :
      t.memory (start + first_byte.distance) ≡ 0
      → (strtok_at fuel t start delim ≡ some (record t { last = 0 }, 0))
        × IsExhausted t.memory delim d start n (record t { last = 0 }, 0)
  unfolding strtok_at
  exhausted at_end =
      let whole : n ≤ first_byte.distance = elim (Bool-cases (leb n first_byte.distance)) [
        | inl yes_le ↦ ground arith
        | inr no_le ↦ absurd (str.bytes first_byte.distance (ground arith) at_end)
      ] in
      (
        rw (strtok_at, first_byte.found_lem, at_end) refl,
        record {
          all = λ i h. not-false _ (first_byte.not_before i (omega (arith, whole)));
          none_left = refl;
        },
      )

  module _ (byte : t.memory (start + first_byte.distance) ≢ 0) where
    room : first_byte.distance + 1 ≤ n
    room = elim (Bool-cases (first_byte.distance == n)) [
      | inl last ↦ absurd (byte (ap t.memory (ground arith) ∙ str.nul))
      | inr before ↦
          let ne : first_byte.distance ≢ n = ground arith in omega (arith, first_byte.within)
    ]

    abbrev start_at : ℕ
    start_at = first_byte.distance

    abbrev end_at : ℕ
    end_at = first_byte.distance + 1 + (end_byte (first_byte.distance + 1) room).distance

    end_within : end_at ≤ n
    end_within = omega (arith, (end_byte (first_byte.distance + 1) room).within, room)

    found_end : find_end fuel fuel t.memory delim (start + start_at + 1) ≡ some (start + end_at)
    found_end =
        ap (find_end fuel fuel t.memory delim) (omega arith)
        ∙ (end_byte (first_byte.distance + 1) room).found_lem
        ∙ ap some (omega arith)

    end_lem : ending t.memory delim d (t.memory (start + end_at)) ≡ true
    end_lem =
        ap (λ a. ending t.memory delim d (t.memory a)) (omega arith)
        ∙ (end_byte (first_byte.distance + 1) room).holds

    inside_lem :
        (i : ℕ) → start_at ≤ i → i < end_at → among t.memory delim d (t.memory (start + i)) ≡ false
    inside_lem i lo hi = elim (Bool-cases (start_at == i)) [
      | inl first ↦ let e : i ≡ start_at = ground arith in rw e (not-true _ first_byte.holds)
      | inr later ↦
          let ne : start_at ≢ i = ground arith in
          or-left_false _ _ (
            ap (λ a. ending t.memory delim d (t.memory a)) (omega arith)
            ∙ (end_byte (first_byte.distance + 1) room).not_before (i - (start_at + 1))
                (omega arith))
    ]

    cut_lem :
        ((end_at ≡ n)
          × (cut t (start + start_at) (start + end_at) ≡ record { memory = t.memory; last = 0 }))
        ⊎ ((among t.memory delim d (t.memory (start + end_at)) ≡ true)
            × (cut t (start + start_at) (start + end_at)
                ≡ record { memory = write (start + end_at) 0 t.memory; last = start + end_at + 1 }))
    unfolding cut
    cut_lem = elim (Bool-cases (t.memory (start + end_at) == 0)) [
      | inl nul ↦
          let e : t.memory (start + end_at) ≡ 0 = ground arith in inl (at_end e, rw nul refl)
      | inr byte ↦ inr (or-left_true _ _ end_lem byte, rw byte refl)
    ]
      where
        at_end : t.memory (start + end_at) ≡ 0 → end_at ≡ n
        at_end e = elim (Bool-cases (end_at == n)) [
          | inl same ↦ ground arith
          | inr before ↦
              let ne : end_at ≢ n = ground arith in
              absurd (str.bytes end_at (omega (arith, end_within)) e)
        ]

    token :
        (strtok_at fuel t start delim
          ≡ some (cut t (start + start_at) (start + end_at), start + start_at))
        × IsToken t.memory delim d start n
            (cut t (start + start_at) (start + end_at), start + start_at)
    unfolding strtok_at
    token =
        let test : (t.memory (start + start_at) == 0) ≡ false = ground arith in
        (
          rw (strtok_at, first_byte.found_lem, test, found_end) refl,
          record {
            j = start_at;
            e = end_at;
            some_byte = omega arith;
            within = end_within;
            before = λ i h. not-false _ (first_byte.not_before i h);
            inside = inside_lem;
            begins = refl;
            ends = cut_lem;
          },
        )

-- With more fuel than the string and the delimiters have bytes, strtok returns. From `start`, which is s
-- or, for NULL, the address kept in `last`, and is not NULL, it returns the next token, or NULL if there
-- are delimiters alone.
pub strtok-IsToken :
    (fuel d : ℕ) (t : Tokens) (s delim start n : ℕ)
    → start ≡ (if s == 0 then t.last else s)
    → start ≢ 0
    → IsString t.memory delim d
    → d < fuel
    → IsString t.memory start n
    → n < fuel
    → (out : Tokens × ℕ) × (strtok fuel t s delim ≡ some out)
      × (IsToken t.memory delim d start n out ⊎ IsExhausted t.memory delim d start n out)
strtok-IsToken fuel d t s delim start n from some_start delims short str enough =
    let first = first_byte fuel d t delim start n delims short str enough in
    elim (Bool-cases (t.memory (start + first.distance) == 0)) [
      | inl nul ↦
          let (returned, none_left) =
            exhausted fuel d t delim start n delims short str enough (ground arith) in
          (_, strtok-strtok_at fuel t s delim start from some_start ∙ returned, inr none_left)
      | inr byte ↦
          let (returned, found) =
            token fuel d t delim start n delims short str enough (ground arith) in
          (_, strtok-strtok_at fuel t s delim start from some_start ∙ returned, inl found)
    ]
