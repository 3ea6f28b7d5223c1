-- ===== src/Text/Token.antt =====
-- strtok of src/string.c. A pointer is an address, with 0 for NULL; `none` means that the fuel ran out.
use si_stultum.Base.{
  ℕ, zero, suc, ◌+◌, ◌<◌, Bool, true, false, Option, none, some, ◌≡◌, ◌≢◌, refl, ap, arith, ◌∙◌,
}
use si_stultum.Base.{◌==◌, ◌||◌, if◌then◌else◌, Bool-cases, inl, inr}
use si_stultum.Memory.{Memory, write}
use si_stultum.Text.Length.{IsString}

-- Memory, and the static pointer `last`.
pub record Tokens : Type 0 where
  pub memory : Memory
  pub last : ℕ

-- for (spanp = delim; (sc = *spanp++) != 0;): whether c is among the delimiters.
unfoldable pub is_delim : ℕ → Memory → ℕ → ℕ → Option Bool
is_delim zero m spanp c = none
is_delim (suc fuel) m spanp c =
    let rest = is_delim fuel m (spanp + 1) c in
    if m spanp == 0 then some false else if c == m spanp then some true else rest

-- do { ... } while (sc != 0): whether c is among the delimiters or their NUL.
unfoldable pub ends_token : ℕ → Memory → ℕ → ℕ → Option Bool
ends_token zero m spanp c = none
ends_token (suc fuel) m spanp c =
    let rest = ends_token fuel m (spanp + 1) c in
    if m spanp == c then some true else if m spanp == 0 then some false else rest

-- The loop at `cont`: the address of the first byte from s on that is no delimiter.
unfoldable pub skip : ℕ → ℕ → Memory → ℕ → ℕ → Option ℕ
unfolding is_delim
skip few zero m delim s = none
skip few (suc fuel) m delim s =
    let rest = skip few fuel m delim (s + 1) in
    elim (is_delim few m delim (m s)) [ none ↦ none | some found ↦ if found then rest else some s ]

-- for (;;): the address of the first byte from s on that ends a token.
unfoldable pub find_end : ℕ → ℕ → Memory → ℕ → ℕ → Option ℕ
unfolding ends_token
find_end few zero m delim s = none
find_end few (suc fuel) m delim s =
    let rest = find_end few fuel m delim (s + 1) in
    elim (ends_token few m delim (m s)) [
      | none ↦ none
      | some found ↦ if found then some s else rest
    ]

-- The token at p with its end at e: `last` goes on behind it, or is NULL at the string's end.
unfoldable pub cut : Tokens → ℕ → ℕ → Tokens
unfolding write
cut t p e =
    if t.memory e == 0
    then record t { last = 0 }
    else record { memory = write e 0 t.memory; last = e + 1 }

unfoldable pub strtok : ℕ → Tokens → (s delim : ℕ) → Option (Tokens × ℕ)
unfolding skip find_end cut
strtok fuel t s delim =
    let start = if s == 0 then t.last else s in
    if start == 0 then some (t, 0) else elim (skip fuel fuel t.memory delim start) [
      | none ↦ none
      | some p ↦
          if t.memory p == 0
          then some (record t { last = 0 }, 0)
          else elim (find_end fuel fuel t.memory delim (p + 1)) [
            | none ↦ none
            | some e ↦ some (cut t p e, p)
          ]
    ]

-- c is one of d bytes from a on.
unfoldable pub among : Memory → ℕ → ℕ → ℕ → Bool
among m a zero c = false
among m a (suc d) c = (c == m a) || among m (a + 1) d c

pub tail-IsString : (m : Memory) (a d : ℕ) → IsString m a (suc d) → IsString m (a + 1) d
tail-IsString m a d s = record {
  bytes = λ i h e. s.bytes (suc i) (omega arith) (ap m (omega arith) ∙ e);
  nul = ap m (omega arith) ∙ s.nul;
}

pub is_delim-among :
    (fuel : ℕ) (m : Memory) (a d c : ℕ)
    → IsString m a d
    → d < fuel
    → is_delim fuel m a c ≡ some (among m a d c)
unfolding is_delim among
is_delim-among zero m a d c s h = absurd (omega arith)
is_delim-among (suc fuel) m a zero c s h =
    let nul : m a ≡ 0 = ap m (omega arith) ∙ s.nul in rw nul refl
is_delim-among (suc fuel) m a (suc d) c s h =
    let first : m a ≢ 0 = λ e. s.bytes 0 (omega arith) (ap m (omega arith) ∙ e) in
    let test : (m a == 0) ≡ false = ground arith in
    let rest = is_delim-among fuel m (a + 1) d c (tail-IsString m a d s) (omega arith) in
    elim (Bool-cases (c == m a)) [ inl hit ↦ rw (test, hit) refl | inr miss ↦ rw (test, miss) rest ]

pub ends_token-among :
    (fuel : ℕ) (m : Memory) (a d c : ℕ)
    → IsString m a d
    → d < fuel
    → ends_token fuel m a c ≡ some (among m a d c || c == 0)
unfolding ends_token among
ends_token-among zero m a d c s h = absurd (omega arith)
ends_token-among (suc fuel) m a zero c s h =
    let nul : m a ≡ 0 = ap m (omega arith) ∙ s.nul in
    elim (Bool-cases (c == 0)) [
      | inl zero_byte ↦ let e : (0 == c) ≡ true = ground arith in rw (nul, e, zero_byte) refl
      | inr other ↦ let e : (0 == c) ≡ false = ground arith in rw (nul, e, other) refl
    ]
ends_token-among (suc fuel) m a (suc d) c s h =
    let first : m a ≢ 0 = λ e. s.bytes 0 (omega arith) (ap m (omega arith) ∙ e) in
    let test : (m a == 0) ≡ false = ground arith in
    let rest = ends_token-among fuel m (a + 1) d c (tail-IsString m a d s) (omega arith) in
    elim (Bool-cases (c == m a)) [
      | inl hit ↦ let e : (m a == c) ≡ true = ground arith in rw (e, hit) refl
      | inr miss ↦ let e : (m a == c) ≡ false = ground arith in rw (e, test, miss) rest
    ]
