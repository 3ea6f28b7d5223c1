-- ===== src/PageMap/Entry.antt =====
-- The fields of a page table entry: flags and a 40-digit frame number.
use si_stultum.Base.{
  ℕ, zero, suc, ◌+◌, ◌-◌, ◌*◌, ◌/◌, ◌%◌, ◌^◌, ◌≤◌, ◌<◌, bit_and, bit_or, Bool, true, false,
}
use si_stultum.Base.{
  Bool-cases, ◌==◌, if◌then◌else◌, u64, ◌<<<◌, ◌>>>◌, ◌≡◌, ◌≢◌, refl, sym, ap, ◌∙◌, arith, inl, inr,
}
use native.Mathlib.Nat.{one-le-pow}
use si_stultum.Bits.{
  bit_and_low, bit, bit_low, bit_and_split, bit_or_split, bit_and_ones, bit_and-zero, bit_or-zero,
  zero-bit_or, bit-and, bit-or, bit-two-pow_self, bit-two-pow_ne, bit-complement, bit-lt,
  bit_and-two-pow, two-pow-lt, one-iff-if, bit_or-lt, bit_and-lt,
}
use si_stultum.PageMap.{flag_set, flag_get, addr_set, addr_get, linked}

-- An entry in fields: 12 digits, 40 digits of the frame number, 12 digits.
abbrev pub entry_of : ℕ → ℕ → ℕ → ℕ
entry_of high number low = (high * 2 ^ 40 + number) * 2 ^ 12 + low

and_fields :
    (high number low h n l : ℕ)
    → number < 2 ^ 40
    → low < 2 ^ 12
    → n < 2 ^ 40
    → l < 2 ^ 12
    → bit_and (entry_of high number low) (entry_of h n l)
      ≡ entry_of (bit_and high h) (bit_and number n) (bit_and low l)
and_fields high number low h n l p q r t =
    bit_and_split 12 (high * 2 ^ 40 + number) low (h * 2 ^ 40 + n) l q t
    ∙ ap (λ x. x * 2 ^ 12 + bit_and low l) (bit_and_split 40 high number h n p r)

or_fields :
    (high number low h n l : ℕ)
    → number < 2 ^ 40
    → low < 2 ^ 12
    → n < 2 ^ 40
    → l < 2 ^ 12
    → bit_or (entry_of high number low) (entry_of h n l)
      ≡ entry_of (bit_or high h) (bit_or number n) (bit_or low l)
or_fields high number low h n l p q r t =
    bit_or_split 12 (high * 2 ^ 40 + number) low (h * 2 ^ 40 + n) l q t
    ∙ ap (λ x. x * 2 ^ 12 + bit_or low l) (bit_or_split 40 high number h n p r)

addr_get_fields :
    (high number low : ℕ)
    → number < 2 ^ 40
    → low < 2 ^ 12
    → addr_get (entry_of high number low) ≡ number
unfolding addr_get
addr_get_fields high number low hn hl =
    rw
      (
        and_fields high number low 0 (2 ^ 40 - 1) 0 hn hl (omega arith) (omega arith),
        bit_and-zero high,
        bit_and_ones 40 number hn,
        bit_and-zero low,
      )
      (omega arith)

addr_set_fields :
    (high number low addr : ℕ)
    → high < 2 ^ 12
    → number < 2 ^ 40
    → low < 2 ^ 12
    → addr_set (entry_of high number low) addr ≡ entry_of high (addr % 2 ^ 40) low
unfolding addr_set
addr_set_fields high number low addr hh hn hl =
    rw
      (
        and_fields high number low (2 ^ 12 - 1) 0 (2 ^ 12 - 1) hn hl (omega arith) (omega arith),
        bit_and_ones 12 high hh,
        bit_and-zero number,
        bit_and_ones 12 low hl,
        bit_and_low 40 addr,
      )
      (let whole : u64 ((addr % 2 ^ 40) <<< 12) ≡ entry_of 0 (addr % 2 ^ 40) 0 = omega arith in
        rw (
          whole,
          or_fields high 0 low 0 (addr % 2 ^ 40) 0 (omega arith) hl (omega arith) (omega arith),
          bit_or-zero high,
          zero-bit_or (addr % 2 ^ 40),
          bit_or-zero low,
        ))

-- Every 64-bit entry is its fields.
fields_lem : (e : ℕ) → e ≡ entry_of (e / 2 ^ 52) (e / 2 ^ 12 % 2 ^ 40) (e % 2 ^ 12)
fields_lem e = omega arith

addr_set_lem :
    (e addr : ℕ) → e < 2 ^ 64 → addr_set e addr ≡ entry_of (e / 2 ^ 52) (addr % 2 ^ 40) (e % 2 ^ 12)
addr_set_lem e addr h =
    ap (λ x. addr_set x addr) (fields_lem e)
    ∙ addr_set_fields (e / 2 ^ 52) (e / 2 ^ 12 % 2 ^ 40) (e % 2 ^ 12) addr (omega arith)
        (omega arith) (omega arith)

-- pmm_addr_get reads the 40 digits of the frame number.
pub addr_get_lem : (e : ℕ) → addr_get e ≡ e / 2 ^ 12 % 2 ^ 40
addr_get_lem e =
    ap addr_get (fields_lem e)
    ∙ addr_get_fields (e / 2 ^ 52) (e / 2 ^ 12 % 2 ^ 40) (e % 2 ^ 12) (omega arith) (omega arith)

-- In a 64-bit entry, the frame number that is stored reads back, within 40 digits, and the 12 digits of flags below it
-- and the 12 digits above it stay.
pub addr_get-addr_set :
    (e addr : ℕ)
    → e < 2 ^ 64
    → (addr_get (addr_set e addr) ≡ addr % 2 ^ 40)
      × (addr_set e addr % 2 ^ 12 ≡ e % 2 ^ 12)
      × (addr_set e addr / 2 ^ 52 ≡ e / 2 ^ 52)
addr_get-addr_set e addr h = (
  ap addr_get (addr_set_lem e addr h)
      ∙ addr_get_fields (e / 2 ^ 52) (addr % 2 ^ 40) (e % 2 ^ 12) (omega arith) (omega arith),
  omega (arith, addr_set_lem e addr h),
  omega (arith, addr_set_lem e addr h),
)

flag_get-bit : (e k : ℕ) → flag_get e (2 ^ k) ≡ (bit e k == 1)
unfolding flag_get
flag_get-bit e k =
    digit_mask (bit e k) (2 ^ k) _ (bit-lt e k) (one-le-pow k 2 (omega arith)) (bit_and-two-pow e k)
  where
    digit_mask : (d p x : ℕ) → d < 2 → 1 ≤ p → x ≡ d * p → (x == p) ≡ (d == 1)
    digit_mask zero p x h pos e = ground arith
    digit_mask (suc zero) p x h pos e = ground arith
    digit_mask (suc (suc d)) p x h pos e = absurd (omega arith)

flag_set-bit_self :
    (e k : ℕ) (val : Bool) → k < 32 → bit (flag_set e (2 ^ k) val) k ≡ (if val then 1 else 0)
unfolding flag_set
flag_set-bit_self e k true h = omega (arith, bit-or e (2 ^ k) k, bit-two-pow_self k, bit-lt e k)
flag_set-bit_self e k false h = omega (
  arith,
  bit-and e (2 ^ 32 - 1 - 2 ^ k) k,
  bit-complement 32 (2 ^ k) k (two-pow-lt 32 k h) h,
  bit-two-pow_self k,
)

flag_set-bit_ne :
    (e j k : ℕ) (val : Bool) → j < 32 → k < 32 → j ≢ k → bit (flag_set e (2 ^ j) val) k ≡ bit e k
unfolding flag_set
flag_set-bit_ne e j k true hj hk ne = omega (arith, bit-or e (2 ^ j) k, bit-two-pow_ne j k ne)
flag_set-bit_ne e j k false hj hk ne = omega (
  arith,
  bit-and e (2 ^ 32 - 1 - 2 ^ j) k,
  bit-complement 32 (2 ^ j) k (two-pow-lt 32 j hj) hk,
  bit-two-pow_ne j k ne,
  bit-lt e k,
)

-- A flag among the low 32 digits reads back as it was set or cleared, and no other flag among
-- them changes.
pub flag_get-flag_set :
    (e j k : ℕ) (val : Bool)
    → j < 32
    → k < 32
    → flag_get (flag_set e (2 ^ j) val) (2 ^ k) ≡ (if j == k then val else flag_get e (2 ^ k))
flag_get-flag_set e j k val hj hk = elim (Bool-cases (j == k)) [
  | inl same ↦
      let i : j ≡ k = ground arith in
      rw (same, flag_get-bit, ← i, flag_set-bit_self e j val hj) (one-iff-if val)
  | inr other ↦
      rw (other, flag_get-bit, flag_set-bit_ne e j k val hj hk (ground arith))
        (sym (flag_get-bit e k))
]

clear_mask : (j : ℕ) → j < 12 → 2 ^ 32 - 1 - 2 ^ j ≡ entry_of 0 (2 ^ 20 - 1) (2 ^ 12 - 1 - 2 ^ j)
clear_mask j h = omega (arith, two-pow-lt 12 j h)

-- Clearing one of the 12 low flags of a 64-bit entry also clears the digits of its frame number from
-- number 20 on: of a frame behind 4 GiB only the remainder is left.
pub addr_get-flag_set_clear :
    (e j : ℕ) → e < 2 ^ 64 → j < 12 → addr_get (flag_set e (2 ^ j) false) ≡ addr_get e % 2 ^ 20
unfolding flag_set
addr_get-flag_set_clear e j h small =
    let high = e / 2 ^ 52 in
    let number = e / 2 ^ 12 % 2 ^ 40 in
    let low = e % 2 ^ 12 in
    let cut : bit_and e (2 ^ 32 - 1 - 2 ^ j)
        ≡ entry_of 0 (number % 2 ^ 20) (bit_and low (2 ^ 12 - 1 - 2 ^ j)) =
      ap (λ x. bit_and x (2 ^ 32 - 1 - 2 ^ j)) (fields_lem e)
      ∙ ap (bit_and (entry_of high number low)) (clear_mask j small)
      ∙ and_fields high number low 0 (2 ^ 20 - 1) (2 ^ 12 - 1 - 2 ^ j) (omega arith) (omega arith)
          (omega arith) (omega arith)
      ∙ rw (bit_and-zero high, bit_and_low 20 number) refl in
    ap addr_get cut
    ∙ addr_get_fields 0 (number % 2 ^ 20) (bit_and low (2 ^ 12 - 1 - 2 ^ j)) (omega arith)
        (bit_and-lt 12 low _ (omega arith))
    ∙ ap (λ x. x % 2 ^ 20) (sym (addr_get_lem e))

linked_fields :
    (e page : ℕ)
    → e < 2 ^ 64
    → linked e page ≡ entry_of (e / 2 ^ 52) (page / 2 ^ 12 % 2 ^ 40) (bit_or (e % 2 ^ 12) 3)
unfolding flag_set
linked_fields e page h = rw (
  addr_set_lem e (page >>> 12) h,
  or_fields (e / 2 ^ 52) (page / 2 ^ 12 % 2 ^ 40) (e % 2 ^ 12) 0 0 3 (omega arith) (omega arith)
      (omega arith) (omega arith),
  bit_or-zero (e / 2 ^ 52),
  bit_or-zero (page / 2 ^ 12 % 2 ^ 40),
)

-- The entry that pmm_map_memory stores over a 64-bit entry is present, leads to the page's frame
-- within 40 digits, and has 64 bits.
pub linked_lem :
    (e page : ℕ)
    → e < 2 ^ 64
    → (flag_get (linked e page) 1 ≡ true)
      × (addr_get (linked e page) ≡ page / 2 ^ 12 % 2 ^ 40)
      × (linked e page < 2 ^ 64)
linked_lem e page h =
    let low : bit_or (e % 2 ^ 12) 3 < 2 ^ 12 = bit_or-lt 12 _ 3 (omega arith) (omega arith) in
    let odd : bit_or (e % 2 ^ 12) 3 % 2 ≡ 1 = omega (
      arith,
      bit-or (e % 2 ^ 12) 3 0,
      bit_low (bit_or (e % 2 ^ 12) 3),
      bit_low 3,
      bit-lt (e % 2 ^ 12) 0,
    ) in
    let value = linked_fields e page h in
    let present : bit (linked e page) 0 ≡ 1 = omega (arith, value, bit_low (linked e page)) in
    (
      flag_get-bit (linked e page) 0 ∙ ap (λ d. d == 1) present,
      ap addr_get value ∙ addr_get_fields _ _ _ (omega arith) low,
      omega (arith, value),
    )
