-- ===== src/PageMap/Tree.antt =====
-- The tables of src/page_map.c as a tree: which frame is a table of which level, and which part of the
-- address space it serves.
use si_stultum.Base.{ℕ, zero, suc, ◌+◌, ◌*◌, ◌/◌, ◌%◌, ◌^◌, ◌≤◌, ◌<◌, true, false, ◌≡◌, ◌≢◌}
use si_stultum.Base.{refl, sym, ◌∙◌, arith, inl, inr, u64, lt-or-ge, Bool-cases}
use si_stultum.Memory.{Memory, IsBytes, load64, load_ext, load-lt}
use si_stultum.Bits.{bit_and_low}
use si_stultum.Frames.{Frames, bitmap_get, word_addr}
use si_stultum.Frames.Bitmap.{IsBitmap, Outside, bitmap_get-digit, bitmap_get_beyond}
use si_stultum.PageMap.Entry.{addr_get_lem}
use si_stultum.PageMap.{Paging, entry_addr, flag_get, addr_get, table_index, follow, find_paddr}

-- Entry i of the table in frame t.
abbrev pub entry : Memory → ℕ → ℕ → ℕ
entry m t i = load64 (entry_addr (4096 * t) i) m

abbrev pub IsPresent : ℕ → Type 0
IsPresent e = flag_get e 1 ≡ true

-- What each frame serves as: a table of a level from 1 to 4, or 0 for none; and the number of the
-- part of the address space that the table covers, among the parts of its level.
pub record Labels : Type 0 where
  pub level : ℕ → ℕ
  pub part : ℕ → ℕ

-- Frame t can hold a table: it is taken, and its bytes lie outside the bitmap.
pub record IsTable (f : Frames) (t : ℕ) : Type 0 where
  pub within : t ≤ f.max_index
  pub taken : bitmap_get f t ≡ true
  pub apart : (a : ℕ) → 4096 * t ≤ a → a < 4096 * t + 4096 → Outside f a

-- The bitmap is well formed and holds its own frames, the root is a table of level 4, and a present
-- entry of a table of level 2 or more leads to the table of the level below for its part.
pub record IsTree (s : Paging) (l : Labels) : Type 0 where
  pub bitmap : IsBitmap s.frames
  pub small : s.frames.max_index < 2 ^ 40
  pub free_apart :
      (j a : ℕ)
      → j ≤ s.frames.max_index
      → bitmap_get s.frames j ≡ false
      → 4096 * j ≤ a
      → a < 4096 * j + 4096
      → Outside s.frames a
  pub root : 4096 * (s.pml4 / 4096) ≡ s.pml4
  pub root_level : l.level (s.pml4 / 4096) ≡ 4
  pub root_part : l.part (s.pml4 / 4096) ≡ 0
  pub table : (t : ℕ) → l.level t ≢ 0 → IsTable s.frames t
  pub child :
      (t k i : ℕ)
      → l.level t ≡ suc (suc k)
      → i < 512
      → IsPresent (entry s.frames.memory t i)
      → (l.level (addr_get (entry s.frames.memory t i)) ≡ suc k)
        × (l.part (addr_get (entry s.frames.memory t i)) ≡ l.part t * 512 + i)

-- Frame u is taken, and holds no byte of the bitmap.
abbrev pub IsHeld : Frames → ℕ → Type 0
IsHeld f u = (bitmap_get f u ≡ true) × ((a : ℕ) → 4096 * u ≤ a → a < 4096 * u + 4096 → Outside f a)

-- Frame u is held, and is no table.
abbrev pub IsSpare : Paging → Labels → ℕ → Type 0
IsSpare s l u = (l.level u ≡ 0) × IsHeld s.frames u

-- The translation from the table of level k at `page` on.
unfoldable pub seek : Memory → ℕ → ℕ → ℕ → ℕ
unfolding follow
seek m zero page vaddr = page
seek m (suc k) page vaddr =
    follow m page (table_index vaddr (12 + 9 * k)) λ next. seek m k next vaddr

pub find_paddr-seek :
    (s : Paging) (vaddr : ℕ) → find_paddr s vaddr ≡ seek s.frames.memory 4 s.pml4 vaddr
unfolding find_paddr seek
find_paddr-seek s vaddr = refl

pub table_index_lem : (vaddr shift : ℕ) → table_index vaddr shift ≡ vaddr / 2 ^ shift % 512
table_index_lem vaddr shift = bit_and_low 9 (vaddr / 2 ^ shift)

pub table_index-lt : (vaddr shift : ℕ) → table_index vaddr shift < 512
table_index-lt vaddr shift = omega (arith, table_index_lem vaddr shift)

-- An address in an entry is below 2 ^ 52, so the shift back loses nothing.
pub addr_get-whole : (e : ℕ) → u64 (addr_get e * 2 ^ 12) ≡ 4096 * addr_get e
addr_get-whole e = omega (arith, addr_get_lem e)

pub entry_lt : (m : Memory) (t i : ℕ) → IsBytes m → entry m t i < 2 ^ 64
entry_lt m t i bytes = load-lt 8 _ m bytes

-- One step down.
pub seek-present :
    (m : Memory) (k t vaddr : ℕ)
    → IsPresent (entry m t (table_index vaddr (12 + 9 * k)))
    → seek m (suc k) (4096 * t) vaddr
      ≡ seek m k (4096 * addr_get (entry m t (table_index vaddr (12 + 9 * k)))) vaddr
unfolding seek
seek-present m k t vaddr here =
    rw (here, addr_get-whole (entry m t (table_index vaddr (12 + 9 * k)))) refl

pub seek-absent :
    (m : Memory) (k t vaddr : ℕ)
    → flag_get (entry m t (table_index vaddr (12 + 9 * k))) 1 ≡ false
    → seek m (suc k) (4096 * t) vaddr ≡ 0
unfolding seek
seek-absent m k t vaddr gone = rw gone refl

-- Two memories that agree on the entry, and behind it where it is present.
pub seek-same :
    (m m' : Memory) (k t vaddr : ℕ)
    → entry m' t (table_index vaddr (12 + 9 * k)) ≡ entry m t (table_index vaddr (12 + 9 * k))
    → (IsPresent (entry m t (table_index vaddr (12 + 9 * k)))
        → seek m' k (4096 * addr_get (entry m t (table_index vaddr (12 + 9 * k)))) vaddr
          ≡ seek m k (4096 * addr_get (entry m t (table_index vaddr (12 + 9 * k)))) vaddr)
    → seek m' (suc k) (4096 * t) vaddr ≡ seek m (suc k) (4096 * t) vaddr
seek-same m m' k t vaddr same behind =
    elim (Bool-cases (flag_get (entry m t (table_index vaddr (12 + 9 * k))) 1)) [
      | inl here ↦
          seek-present m' k t vaddr (rw same here)
          ∙ rw same (behind here)
          ∙ sym (seek-present m k t vaddr here)
      | inr gone ↦ seek-absent m' k t vaddr (rw same gone) ∙ sym (seek-absent m k t vaddr gone)
    ]

-- The bitmap is read from its own words alone.
pub bitmap_get_ext :
    (f g : Frames) (j : ℕ)
    → IsBitmap f
    → IsBitmap g
    → g.max_index ≡ f.max_index
    → g.data_addr ≡ f.data_addr
    → ((a : ℕ) → f.data_addr ≤ a → a < f.data_addr + 4 * f.size → g.memory a ≡ f.memory a)
    → bitmap_get g j ≡ bitmap_get f j
bitmap_get_ext f g j vf vg max place same = elim (lt-or-ge f.max_index j) [
  | inl beyond ↦ bitmap_get_beyond g j (omega arith) ∙ sym (bitmap_get_beyond f j beyond)
  | inr within ↦ rw (
    bitmap_get-digit g j (omega arith),
    bitmap_get-digit f j within,
    place,
    load_ext 4 (word_addr f (j / 32)) g.memory f.memory
        λ a lo hi. same a (omega arith) (omega (arith, vf.size_lem)),
  )
]
