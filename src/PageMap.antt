-- ===== src/PageMap.antt =====
-- The page tables, src/page_map.c and src/page_map.h: entries, and the four-level tables in physical
-- memory. The frames for new tables come from the allocator of `Frames`.
pub mod Entry
pub mod Tree
pub mod Entries
pub mod Grow
pub mod Descend
pub mod Link
pub mod Map
pub mod Frame
mod Tests
use si_stultum.Base.{ℕ, ◌+◌, ◌-◌, ◌*◌, ◌/◌, ◌%◌, ◌^◌, bit_and, bit_or, Bool, true, false}
use si_stultum.Base.{◌==◌, if◌then◌else◌, u64, ◌<<<◌, ◌>>>◌}
use si_stultum.Memory.{Memory, load64, store64}
use si_stultum.Frames.{Frames, request}
use si_stultum.Frames.Copy.{memset}

-- PDE_P and PDE_RW of PdeBitFlag.
abbrev pub pde_p : ℕ
pde_p = 1

abbrev pub pde_rw : ℕ
pde_rw = 2

-- pmm_flag_set on the value of the entry. gcc gives the enum PdeBitFlag, which has no negative value,
-- the type unsigned int, so ~bit_mask is the complement within 32 digits and then widened.
unfoldable pub flag_set : ℕ → ℕ → Bool → ℕ
flag_set entry bit_mask val =
    if val then bit_or entry bit_mask else bit_and entry (2 ^ 32 - 1 - bit_mask)

unfoldable pub flag_get : ℕ → ℕ → Bool
flag_get entry bit_mask = bit_and entry bit_mask == bit_mask

unfoldable pub addr_set : ℕ → ℕ → ℕ
addr_set entry addr =
    bit_or (bit_and entry 0xfff0000000000fff) (u64 (bit_and addr 0x000000ffffffffff <<< 12))

unfoldable pub addr_get : ℕ → ℕ
addr_get entry = bit_and entry 0x000ffffffffff000 >>> 12

-- The global PML4, with the state of the allocator, which holds physical memory.
pub record Paging : Type 0 where
  pub pml4 : ℕ
  pub frames : Frames

unfoldable pub init_pml4 : Paging → ℕ → Paging × ℕ
init_pml4 s addr = (record s { pml4 = addr }, addr)

abbrev pub memory_of : Paging → Memory
memory_of s = s.frames.memory

abbrev pub with_memory : Paging → Memory → Paging
with_memory s m = record s { frames = record s.frames { memory = m } }

-- &table->entries[index]
abbrev pub entry_addr : ℕ → ℕ → ℕ
entry_addr table index = table + 8 * index

-- (vaddr >> shift) & 0x1ff
abbrev pub table_index : ℕ → ℕ → ℕ
table_index vaddr shift = bit_and (vaddr >>> shift) 0x1ff

-- The entry that pmm_map_memory stores to make `page` present and writable.
abbrev pub linked : ℕ → ℕ → ℕ
linked pde page = flag_set (addr_set pde (page >>> 12)) (bit_or pde_p pde_rw) true

-- One of the three upper levels of pmm_map_memory: the table below, which is made if there is none.
unfoldable pub descend : Paging → ℕ → ℕ → Paging × ℕ
descend s table index =
    let pde = load64 (entry_addr table index) (memory_of s) in
    if flag_get pde pde_p
    then (s, u64 (addr_get pde <<< 12))
    else let (f, page) = request s.frames in
      let m = memset f.memory page 0 4096 in
      (
        record s {
          frames = record f { memory = store64 (entry_addr table index) (linked pde page) m };
        },
        page,
      )

-- The last level of pmm_map_memory.
unfoldable pub link : Paging → ℕ → ℕ → ℕ → Paging
link s table index paddr =
    let pde = load64 (entry_addr table index) (memory_of s) in
    with_memory s (store64 (entry_addr table index) (linked pde paddr) (memory_of s))

unfoldable pub map_memory : Paging → ℕ → ℕ → Paging
map_memory s vaddr paddr =
    let (s1, pdp) = descend s s.pml4 (table_index vaddr 39) in
    let (s2, pd) = descend s1 pdp (table_index vaddr 30) in
    let (s3, pt) = descend s2 pd (table_index vaddr 21) in link s3 pt (table_index vaddr 12) paddr

-- One level of pmm_find_paddr: the address in a present entry, or 0, which the function returns.
unfoldable pub follow : Memory → ℕ → ℕ → (ℕ → ℕ) → ℕ
follow m table index next =
    let pde = load64 (entry_addr table index) m in
    if flag_get pde pde_p then next (u64 (addr_get pde <<< 12)) else 0

unfoldable pub find_paddr : Paging → ℕ → ℕ
unfolding follow
find_paddr s vaddr =
    let m = memory_of s in
    follow m s.pml4 (table_index vaddr 39) λ pdp.
      follow m pdp (table_index vaddr 30) λ pd.
        follow m pd (table_index vaddr 21) λ pt. follow m pt (table_index vaddr 12) λ page. page
