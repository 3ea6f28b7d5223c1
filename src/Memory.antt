-- ===== src/Memory.antt =====
-- Physical memory: one byte at each address, and the loads and stores of the processor, which are
-- little-endian and n bytes wide.
use si_stultum.Base.{ℕ, zero, suc, ◌+◌, ◌*◌, ◌/◌, ◌%◌, ◌^◌, ◌≤◌, ◌<◌, ◌≡◌, ◌⊎◌}
use si_stultum.Base.{refl, arith, ◌==◌, if◌then◌else◌}
use native.Mathlib.Nat.{pow-suc}

abbrev pub Memory : Type 0
Memory = ℕ → ℕ

unfoldable pub write : ℕ → ℕ → Memory → Memory
write a v m b = if a == b then v else m b

unfoldable pub load : ℕ → ℕ → Memory → ℕ
load zero a m = 0
load (suc n) a m = m a + 256 * load n (suc a) m

unfoldable pub store : ℕ → ℕ → ℕ → Memory → Memory
unfolding write
store zero a v m = m
store (suc n) a v m = store n (suc a) (v / 256) (write a (v % 256) m)

-- Every address holds a byte.
abbrev pub IsBytes : Memory → Type 0
IsBytes m = (a : ℕ) → m a < 256

-- The n bytes at a and the k bytes at b have no address in common.
abbrev pub Apart : ℕ → ℕ → ℕ → ℕ → Type 0
Apart a n b k = (a + n ≤ b) ⊎ (b + k ≤ a)

pub store-outside : (n a v b : ℕ) (m : Memory) → (b < a) ⊎ (a + n ≤ b) → store n a v m b ≡ m b
unfolding store
store-outside zero a v b m out = refl
store-outside (suc n) a v b m out =
    ground (arith, store-outside n (suc a) (v / 256) b (write a (v % 256) m))

pub load_ext :
    (n a : ℕ) (m k : Memory) → ((b : ℕ) → a ≤ b → b < a + n → m b ≡ k b) → load n a m ≡ load n a k
unfolding load
load_ext zero a m k same = refl
load_ext (suc n) a m k same = omega (
  arith,
  same a (omega arith) (omega arith),
  load_ext n (suc a) m k (λ b lo hi. same b (omega arith) (omega arith)),
)

pub load-store_elsewhere :
    (n a k b v : ℕ) (m : Memory) → Apart a n b k → load k b (store n a v m) ≡ load k b m
load-store_elsewhere n a k b v m apart =
    load_ext k b (store n a v m) m λ c lo hi. store-outside n a v c m (omega arith)

pub load-store_self : (n a v : ℕ) (m : Memory) → v < 256 ^ n → load n a (store n a v m) ≡ v
unfolding load store
load-store_self zero a v m fits = omega arith
load-store_self (suc n) a v m fits = ground (
  arith,
  store-outside n (suc a) (v / 256) a (write a (v % 256) m),
  load-store_self n (suc a) (v / 256) (write a (v % 256) m) (omega (arith, pow-suc 256 n)),
)

pub store-IsBytes : (n a v : ℕ) (m : Memory) → IsBytes m → IsBytes (store n a v m)
unfolding store
store-IsBytes zero a v m bytes = bytes
store-IsBytes (suc n) a v m bytes =
    store-IsBytes n (suc a) (v / 256) (write a (v % 256) m) λ b. ground (arith, bytes b)

pub load-lt : (n a : ℕ) (m : Memory) → IsBytes m → load n a m < 256 ^ n
unfolding load
load-lt zero a m bytes = omega arith
load-lt (suc n) a m bytes = omega (arith, bytes a, load-lt n (suc a) m bytes, pow-suc 256 n)

-- C's uint32_t and uint64_t objects in memory.
abbrev pub load32 : ℕ → Memory → ℕ
load32 = load 4

abbrev pub store32 : ℕ → ℕ → Memory → Memory
store32 = store 4

abbrev pub load64 : ℕ → Memory → ℕ
load64 = load 8

abbrev pub store64 : ℕ → ℕ → Memory → Memory
store64 = store 8
