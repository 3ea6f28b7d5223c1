-- ===== src/Frames/Init.antt =====
-- ppa_init: from the firmware's memory map to the bitmap. The map is an array of descriptors in
-- physical memory (src/efimem.h), and is read from there each time, as the code does.
pub mod Scan
pub mod Clear
pub mod Fill
pub mod Done
use si_stultum.Base.{ℕ, zero, suc, ◌+◌, ◌-◌, ◌*◌, ◌/◌, ◌%◌, ◌^◌, Bool, true, false, ◌&&◌}
use si_stultum.Base.{◌==◌, ltb, leb, if◌then◌else◌, u64, add64, sub64}
use si_stultum.Memory.{Memory, load32, load64}
use si_stultum.Frames.{Frames, put_word, rsvn, lckn, ursvn}

-- EFI_MEMORY_TYPE's EfiConventionalMemory.
abbrev pub conventional_memory : ℕ
conventional_memory = 7

-- The fields of an EfiMemoryDescriptor at `desc`: type, physicalstart and numberofpages.
abbrev pub desc_type : Memory → ℕ → ℕ
desc_type m desc = load32 desc m

abbrev pub desc_start : Memory → ℕ → ℕ
desc_start m desc = load64 (desc + 8) m

abbrev pub desc_pages : Memory → ℕ → ℕ
desc_pages m desc = load64 (desc + 24) m

-- desc->numberofpages * 4096
abbrev pub desc_size : Memory → ℕ → ℕ
desc_size m desc = u64 (desc_pages m desc * 4096)

abbrev pub is_conventional : Memory → ℕ → Bool
is_conventional m desc = desc_type m desc == conventional_memory

-- The rounds of `for (desc = mmap; desc < mmap + mmap_size; desc += mmap_desc_size)`.
unfoldable pub rounds : ℕ → ℕ → ℕ
rounds mmap_size mmap_desc_size = (mmap_size + mmap_desc_size - 1) / mmap_desc_size

-- get_memory_size, at descriptor `desc` with `left` rounds left.
unfoldable pub size_loop : Memory → ℕ → ℕ → ℕ → ℕ → ℕ
size_loop m step desc zero ret = ret
size_loop m step desc (suc left) ret =
    size_loop m step (desc + step) left (add64 ret (desc_size m desc))

unfoldable pub get_memory_size : Memory → ℕ → ℕ → ℕ → ℕ
unfolding size_loop rounds
get_memory_size m mmap mmap_size mmap_desc_size =
    size_loop m mmap_desc_size mmap (rounds mmap_size mmap_desc_size) 0

-- The variables of the first loop of ppa_init.
pub record Totals : Type 0 where
  pub mem_total : ℕ
  pub largest_segment : ℕ
  pub largest_size : ℕ

unfoldable pub total_step : Memory → ℕ → Totals → Totals
total_step m desc t =
    let crt_size = desc_size m desc in
    let total = add64 t.mem_total crt_size in
    if is_conventional m desc && ltb t.largest_size crt_size
    then record { mem_total = total; largest_segment = desc_start m desc; largest_size = crt_size }
    else record t { mem_total = total }

unfoldable pub total_loop : Memory → ℕ → ℕ → ℕ → Totals → Totals
unfolding total_step
total_loop m step desc zero t = t
total_loop m step desc (suc left) t = total_loop m step (desc + step) left (total_step m desc t)

-- The loop of ppa_init_bitmap, at word i with `left` rounds left. Its i is an int, which overflows at word 2 ^ 31.
unfoldable pub clear_words : Frames → ℕ → ℕ → Frames
unfolding put_word
clear_words f i zero = f
clear_words f i (suc left) = clear_words (put_word f i 0) (i + 1) left

unfoldable pub ppa_init_bitmap : Frames → ℕ → ℕ → Frames
unfolding clear_words
ppa_init_bitmap f data_addr pages =
    let size = pages / 32 + 1 in
    clear_words
      (record f {
        size = size;
        max_index = sub64 pages 1;
        data_addr = data_addr;
        defined = f.defined && leb size (2 ^ 31);
      })
      0 size

-- The second loop of ppa_init, which frees the conventional memory.
unfoldable pub free_loop : Frames → ℕ → ℕ → ℕ → Frames
free_loop f step desc zero = f
free_loop f step desc (suc left) =
    free_loop
      (if is_conventional f.memory desc
        then ursvn f (desc_start f.memory desc) (desc_pages f.memory desc)
        else f)
      step (desc + step) left

abbrev no_totals : Totals
no_totals = record { mem_total = 0; largest_segment = 0; largest_size = 0 }

-- ppa_bitmap._size / 1024 + (ppa_bitmap._size % 1024 ? 1 : 0)
unfoldable pub bitmap_pages : ℕ → ℕ
bitmap_pages size = size / 1024 + (if size % 1024 == 0 then 0 else 1)

-- The part of ppa_init behind the search for the largest segment.
unfoldable pub fill_bitmap : Frames → ℕ → ℕ → ℕ → ℕ → Frames
fill_bitmap f segment mmap mmap_size mmap_desc_size =
    let total_pages = f.mem_total / 4096 in
    let f1 = ppa_init_bitmap f segment total_pages in
    let f2 = rsvn f1 0 total_pages in
    let f3 = free_loop f2 mmap_desc_size mmap (rounds mmap_size mmap_desc_size) in
    let f4 = rsvn f3 0 0x100 in
    let f5 = lckn f4 f4.data_addr (bitmap_pages f1.size) in record f5 { ppa_initialized = true }

-- The counters after the first loop.
abbrev pub counted : Frames → Totals → Frames
counted f t = record f {
  mem_used = 0;
  mem_rsvd = 0;
  mem_free = t.mem_total;
  mem_total = t.mem_total;
}

unfoldable pub ppa_init : Frames → ℕ → ℕ → ℕ → Frames
unfolding total_loop
ppa_init f mmap mmap_size mmap_desc_size =
    if f.ppa_initialized
    then f
    else let t =
        total_loop f.memory mmap_desc_size mmap (rounds mmap_size mmap_desc_size) no_totals in
      let f0 = record f {
        mem_used = 0;
        mem_rsvd = 0;
        mem_free = t.mem_total;
        mem_total = t.mem_total;
      } in
      if t.largest_segment == 0
      then f0
      else fill_bitmap f0 t.largest_segment mmap mmap_size mmap_desc_size
