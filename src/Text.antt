-- ===== src/Text.antt =====
-- The C strings of src/string.c: bytes in memory up to a NUL. A loop that ends at a NUL takes fuel;
-- `none` means that the fuel ran out. The children prove that the length of the string suffices.
pub mod Length
pub mod Reverse
pub mod Number
pub mod Float
pub mod Compare
pub mod Token
pub mod Search
pub mod Strtok
mod Tests
use si_stultum.Base.{ℕ, zero, suc, ◌+◌, ◌-◌, Bool, true, false, Option, none, some, ℤ, sub_ℕ}
use si_stultum.Base.{◌==◌, ltb, leb, ◌&&◌, if◌then◌else◌, u32, ◌^◌}
use si_stultum.Memory.{Memory, write}

-- for (s = str; *s; ++s); return s - str;
unfoldable pub strlen_loop : ℕ → Memory → ℕ → ℕ → Option ℕ
strlen_loop zero m str s = none
strlen_loop (suc fuel) m str s =
    let rest = strlen_loop fuel m str (s + 1) in if m s == 0 then some (s - str) else rest

unfoldable pub strlen : ℕ → Memory → ℕ → Option ℕ
unfolding strlen_loop
strlen fuel m str = strlen_loop fuel m str str

-- The exchange of str[i] and str[j].
unfoldable pub swap : Memory → ℕ → ℕ → ℕ → Memory
unfolding write
swap m str i j = let a = m (str + i) in write (str + j) a (write (str + i) (m (str + j)) m)

-- for (i, j; i < j; i++, j--), with `left` rounds at most; the loop makes fewer than j of them.
unfoldable pub strrev_loop : ℕ → Memory → ℕ → ℕ → ℕ → Memory
unfolding swap
strrev_loop zero m str i j = m
strrev_loop (suc left) m str i j =
    let rest = strrev_loop left (swap m str i j) str (i + 1) (j - 1) in if ltb i j then rest else m

-- len is an unsigned int, i and j are ints: j = len - 1 is negative at an empty string and from 2 ^ 31 + 1 bytes
-- on, and then the loop makes no round. Up to 2 ^ 31 bytes i and j are not negative and do not overflow.
unfoldable pub strrev : ℕ → Memory → ℕ → Option Memory
unfolding strlen strrev_loop
strrev fuel m str = elim (strlen fuel m str) [
  | none ↦ none
  | some n ↦
      let len = u32 n in
      some (if ltb 0 len && leb len (2 ^ 31) then strrev_loop len m str 0 (len - 1) else m)
]

-- The bytes are compared as unsigned char: s1 and s2 are the pointers of the source.
unfoldable pub strcmp : ℕ → Memory → ℕ → ℕ → Option ℤ
strcmp zero m s1 s2 = none
strcmp (suc fuel) m s1 s2 =
    let rest = strcmp fuel m (s1 + 1) (s2 + 1) in
    if m s1 == m s2
    then (if m s1 == 0 then some (sub_ℕ 0 0) else rest)
    else some (sub_ℕ (m s1) (m s2))
