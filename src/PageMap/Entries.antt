-- ===== src/PageMap/Entries.antt =====
-- The entries of tables under the writes of pmm_map_memory.
use si_stultum.Base.{ℕ, zero, suc, ◌+◌, ◌*◌, ◌^◌, ◌≤◌, ◌<◌, ◌≡◌, ◌≢◌, refl, arith, ◌⊎◌, inl, inr}
use si_stultum.Base.{lt-or-ge}
use si_stultum.Frames.{Frames}
use si_stultum.Frames.Bitmap.{Outside}
use si_stultum.Memory.{
  Memory, IsBytes, load, load_ext, store64, load-store_self, load-store_elsewhere,
}
use si_stultum.Memory.{store-outside}
use si_stultum.Frames.Copy.{memset, memset_lem}
use si_stultum.PageMap.{entry_addr}
use si_stultum.PageMap.Tree.{entry}

load_zeros : (n a : ℕ) (m : Memory) → ((b : ℕ) → a ≤ b → b < a + n → m b ≡ 0) → load n a m ≡ 0
unfolding load
load_zeros zero a m zeros = refl
load_zeros (suc n) a m zeros = omega (
  arith,
  zeros a (omega arith) (omega arith),
  load_zeros n (suc a) m λ b lo hi. zeros b (omega arith) (omega arith),
)

pub memset-IsBytes : (m : Memory) (dest val len : ℕ) → IsBytes m → IsBytes (memset m dest val len)
memset-IsBytes m dest val len bytes a = ground (arith, memset_lem m dest val len a, bytes a)

-- The bytes of frame t.
abbrev pub InFrame : ℕ → ℕ → Type 0
InFrame t a = (4096 * t ≤ a) × (a < 4096 * t + 4096)

pub entry_ext :
    (m k : Memory) (t i : ℕ)
    → i < 512
    → ((a : ℕ) → InFrame t a → k a ≡ m a)
    → entry k t i ≡ entry m t i
entry_ext m k t i h same = load_ext 8 _ k m λ a lo hi. same a (omega arith, omega arith)

pub entry-memset_self :
    (m : Memory) (c j : ℕ) → j < 512 → entry (memset m (4096 * c) 0 4096) c j ≡ 0
entry-memset_self m c j h =
    load_zeros 8 _ _ λ a lo hi. ground (arith, memset_lem m (4096 * c) 0 4096 a)

pub entry-memset_ne :
    (m : Memory) (c u j : ℕ)
    → j < 512
    → u ≢ c
    → entry (memset m (4096 * c) 0 4096) u j ≡ entry m u j
entry-memset_ne m c u j h ne =
    entry_ext m _ u j h λ a inside. ground (arith, memset_lem m (4096 * c) 0 4096 a, inside)

-- The store of an entry.
abbrev pub put_entry : ℕ → ℕ → ℕ → Memory → Memory
put_entry t i v m = store64 (entry_addr (4096 * t) i) v m

pub entry-put_entry_self : (m : Memory) (t i v : ℕ) → v < 2 ^ 64 → entry (put_entry t i v m) t i ≡ v
entry-put_entry_self m t i v h = load-store_self 8 _ v m h

pub entry-put_entry_ne :
    (m : Memory) (t i v u j : ℕ)
    → i < 512
    → j < 512
    → (u ≢ t) ⊎ (j ≢ i)
    → entry (put_entry t i v m) u j ≡ entry m u j
entry-put_entry_ne m t i v u j hi hj other = load-store_elsewhere 8 _ 8 _ v m (omega arith)

pub put_entry-outside :
    (m : Memory) (t i v a : ℕ)
    → i < 512
    → (a < 4096 * t) ⊎ (4096 * t + 4096 ≤ a)
    → put_entry t i v m a ≡ m a
put_entry-outside m t i v a hi out = store-outside 8 _ v a m (omega arith)

-- A byte of the bitmap is in no frame that lies outside it.
pub bitmap-Outside :
    (f : Frames) (t a : ℕ)
    → ((b : ℕ) → 4096 * t ≤ b → b < 4096 * t + 4096 → Outside f b)
    → f.data_addr ≤ a
    → a < f.data_addr + 4 * f.size
    → (a < 4096 * t) ⊎ (4096 * t + 4096 ≤ a)
bitmap-Outside f t a apart lo hi = elim (lt-or-ge a (4096 * t)) [
  | inl below ↦ inl below
  | inr above ↦ elim (lt-or-ge a (4096 * t + 4096)) [
    | inl inside ↦ absurd (omega (arith, apart a above inside))
    | inr behind ↦ inr behind
  ]
]
