-- ===== src/Frames.antt =====
-- The physical page allocator, src/page_frames.c and src/page_frames.h: its globals, the bitmap of
-- frames and the operations on frames and runs of frames. The children hold ppa_init (`Init`), the
-- byte copies (`Copy`), and the proofs.
pub mod Bitmap
pub mod Lock
pub mod Range
pub mod Request
pub mod Supply
pub mod Init
pub mod Copy
pub mod Names
mod Tests
use si_stultum.Base.{ℕ, zero, suc, ◌+◌, ◌-◌, ◌*◌, ◌/◌, ◌%◌, ◌^◌, bit_and, bit_or}
use si_stultum.Base.{
  Bool, true, false, not, Option, none, some, ◌==◌, ltb, leb, ◌&&◌, if◌then◌else◌,
}
use si_stultum.Base.{u32, u64, add64, sub64}
use si_stultum.Memory.{Memory, load32, store32, store}

-- The globals of the allocator. `size`, `max_index` and `data_addr` are the fields of ppa_bitmap;
-- the words of the bitmap lie in physical memory at `data_addr`. `defined` is not in the source: it holds until
-- an int overflows, behind which C says nothing of the state; the loops over an int i set it.
pub record Frames : Type 0 where
  pub size : ℕ
  pub max_index : ℕ
  pub data_addr : ℕ
  pub mem_used : ℕ
  pub mem_rsvd : ℕ
  pub mem_free : ℕ
  pub mem_total : ℕ
  pub ppa_initialized : Bool
  pub last_hit : ℕ
  pub memory : Memory
  pub defined : Bool

-- &ppa_bitmap._data[i]
abbrev pub word_addr : Frames → ℕ → ℕ
word_addr f i = f.data_addr + 4 * i

-- ppa_bitmap._data[i]
abbrev pub word : Frames → ℕ → ℕ
word f i = load32 (word_addr f i) f.memory

-- 1 << (index % 32)
abbrev pub mask : ℕ → ℕ
mask index = 2 ^ (index % 32)

-- The word that ppa_bitmap_set stores; ~mask is the complement within 32 digits.
unfoldable pub new_word : Bool → ℕ → ℕ → ℕ
new_word true w m = bit_or w m
new_word false w m = bit_and w (2 ^ 32 - 1 - m)

unfoldable pub put_word : Frames → ℕ → ℕ → Frames
put_word f i w = record f { memory = store32 (word_addr f i) w f.memory }

unfoldable pub bitmap_set : Frames → ℕ → Bool → Frames × Bool
bitmap_set f index set_bit =
    if ltb f.max_index index
    then (f, false)
    else let w = new_word set_bit (word f (index / 32)) (mask index) in
      let f' = put_word f (index / 32) w in
      (f', not (bit_and (word f' (index / 32)) (mask index) == 0))

unfoldable pub bitmap_get : Frames → ℕ → Bool
bitmap_get f index =
    if ltb f.max_index index then false else not (bit_and (word f (index / 32)) (mask index) == 0)

unfoldable pub lck : Frames → ℕ → Frames
lck f addr =
    let index = addr / 4096 in
    if bitmap_get f index
    then f
    else let f' = (bitmap_set f index true).0 in
      record f' { mem_used = add64 f'.mem_used 4096; mem_free = sub64 f'.mem_free 4096 }

unfoldable pub ulck : Frames → ℕ → Frames
ulck f addr =
    let index = addr / 4096 in
    if not (bitmap_get f index)
    then f
    else let f' = (bitmap_set f index false).0 in
      record f' {
        mem_used = sub64 f'.mem_used 4096;
        mem_free = add64 f'.mem_free 4096;
        last_hit = index;
      }

unfoldable pub rsv : Frames → ℕ → Frames
rsv f addr =
    let index = addr / 4096 in
    if bitmap_get f index
    then f
    else let f' = (bitmap_set f index true).0 in
      record f' { mem_rsvd = add64 f'.mem_rsvd 4096; mem_free = sub64 f'.mem_free 4096 }

unfoldable pub ursv : Frames → ℕ → Frames
ursv f addr =
    let index = addr / 4096 in
    if not (bitmap_get f index)
    then f
    else let f' = (bitmap_set f index false).0 in
      record f' {
        mem_rsvd = sub64 f'.mem_rsvd 4096;
        mem_free = add64 f'.mem_free 4096;
        last_hit = index;
      }

-- while (n--) { op(addr); addr += 4096; }, the loop of ppa_lckn and of ppa_rsvn.
unfoldable pub walk : (Frames → ℕ → Frames) → Frames → ℕ → ℕ → Frames
walk op f addr zero = f
walk op f addr (suc n) = walk op (op f addr) (add64 addr 4096) n

unfoldable pub lckn : Frames → ℕ → ℕ → Frames
unfolding walk
lckn f addr n = walk lck f addr n

unfoldable pub rsvn : Frames → ℕ → ℕ → Frames
unfolding walk
rsvn f addr n = walk rsv f addr n

-- (uint64_t)addr + 4096 * i. The product is an int, which overflows from round 2 ^ 19 on.
unfoldable pub nth_addr : ℕ → ℕ → ℕ
nth_addr addr i = add64 addr (4096 * i)

-- for (int i = 0; i < n; i++) op(nth_addr addr i), the loop of ppa_ulckn and of ppa_ursvn, at
-- index i with `left` rounds left.
unfoldable pub walk_from : (Frames → ℕ → Frames) → Frames → ℕ → ℕ → ℕ → Frames
walk_from op f addr i zero = f
walk_from op f addr i (suc left) = walk_from op (op f (nth_addr addr i)) addr (i + 1) left

unfoldable pub ulckn : Frames → ℕ → ℕ → Frames
unfolding walk_from
ulckn f addr n =
    let g = walk_from ulck f addr 0 n in
    record g { last_hit = addr / 4096; defined = g.defined && leb n (2 ^ 19) }

unfoldable pub ursvn : Frames → ℕ → ℕ → Frames
unfolding walk_from
ursvn f addr n =
    let g = walk_from ursv f addr 0 n in
    record g { last_hit = addr / 4096; defined = g.defined && leb n (2 ^ 19) }

-- The inner loop of ppa_request over index_lo, with `left` rounds left: the first index of the
-- word whose bit reads 0.
unfoldable pub find_lo : Frames → ℕ → ℕ → ℕ → Option ℕ
find_lo f index_hi index_lo zero = none
find_lo f index_hi index_lo (suc left) =
    let rest = find_lo f index_hi (index_lo + 1) left in
    let index = index_hi * 32 + index_lo in if bitmap_get f index then rest else some index

-- The outer loop over index_hi, which skips a word of ones.
unfoldable pub find_hi : Frames → ℕ → ℕ → Option ℕ
find_hi f index_hi zero = none
find_hi f index_hi (suc left) =
    let rest = find_hi f (index_hi + 1) left in
    if word f index_hi == 2 ^ 32 - 1
    then rest
    else elim (find_lo f index_hi 0 32) [ none ↦ rest | some index ↦ some index ]

unfoldable pub request : Frames → Frames × ℕ
request f = elim (find_hi f (f.last_hit / 32) (f.size - f.last_hit / 32)) [
  | none ↦ (f, 0)
  | some index ↦ let addr = u64 (index * 4096) in (lck (record f { last_hit = index }) addr, addr)
]
