-- ===== src/Frames/Copy.antt =====
-- ppa_memset and ppa_memcpy, which write byte by byte, upwards.
use si_stultum.Base.{ℕ, zero, suc, ◌+◌, ◌≤◌, ◌<◌, ◌&&◌, ◌≡◌, ◌∙◌, refl, arith, ◌⊎◌}
use si_stultum.Base.{leb, ltb, if◌then◌else◌, u8}
use si_stultum.Memory.{Memory, write}

unfoldable pub memset : Memory → ℕ → ℕ → ℕ → Memory
unfolding write
memset m dest val zero = m
memset m dest val (suc len) = memset (write dest (u8 val) m) (dest + 1) val len

unfoldable pub memcpy : Memory → ℕ → ℕ → ℕ → Memory
unfolding write
memcpy m dest src zero = m
memcpy m dest src (suc len) = memcpy (write dest (m src) m) (dest + 1) (src + 1) len

-- After ppa_memset, the bytes of the range hold the low byte of the value, and all others are as
-- before.
pub memset_lem :
    (m : Memory) (dest val len a : ℕ)
    → memset m dest val len a ≡ (if leb dest a && ltb a (dest + len) then u8 val else m a)
unfolding memset
memset_lem m dest val zero a = ground arith
memset_lem m dest val (suc len) a =
    ground (arith, memset_lem (write dest (u8 val) m) (dest + 1) val len a)

pub memcpy-outside :
    (m : Memory) (dest src len a : ℕ)
    → (a < dest) ⊎ (dest + len ≤ a)
    → memcpy m dest src len a ≡ m a
unfolding memcpy
memcpy-outside m dest src zero a out = refl
memcpy-outside m dest src (suc len) a out =
    ground (arith, memcpy-outside (write dest (m src) m) (dest + 1) (src + 1) len a)

-- Where the target does not begin inside the source, ppa_memcpy gives byte i of the target the value
-- that byte i of the source had.
pub memcpy_lem :
    (m : Memory) (dest src len i : ℕ)
    → (dest ≤ src) ⊎ (src + len ≤ dest)
    → i < len
    → memcpy m dest src len (dest + i) ≡ m (src + i)
unfolding memcpy
memcpy_lem m dest src zero i apart h = absurd (omega arith)
memcpy_lem m dest src (suc len) zero apart h =
    ground (arith, memcpy-outside (write dest (m src) m) (dest + 1) (src + 1) len dest)
memcpy_lem m dest src (suc len) (suc i) apart h =
    let here : dest + suc i ≡ dest + 1 + i = omega arith in
    let there : src + suc i ≡ src + 1 + i = omega arith in
    rw (here, there)
      (memcpy_lem (write dest (m src) m) (dest + 1) (src + 1) len i (omega arith) (omega arith)
        ∙ ground arith)
