-- ===== src/Kernel/Pages.antt =====
-- init_pmm of src/kernel.c: the page tables that map memory and the framebuffer to themselves.
use si_stultum.Base.{ℕ, zero, suc, ◌+◌}
use si_stultum.Base.{add64, sub64, ◌/◌, ◌%◌, ◌==◌, if◌then◌else◌}
use si_stultum.Frames.{Frames, request, lckn}
use si_stultum.Frames.Copy.{memset}
use si_stultum.Frames.Init.{rounds, ppa_init}
use si_stultum.PageMap.{Paging, init_pml4, map_memory}

-- for (addr = ...; addr < end; addr += 4096) pmm_map_memory(addr, addr), with `left` rounds left.
unfoldable pub map_pages : Paging → ℕ → ℕ → Paging
map_pages s addr zero = s
map_pages s addr (suc left) = map_pages (map_memory s addr addr) (add64 addr 4096) left

-- The paging state with a zeroed root table in a granted frame.
unfoldable pub new_root : Paging → Paging
new_root s =
    let (f, root) = request s.frames in
    (init_pml4 (record s { frames = record f { memory = memset f.memory root 0 4096 } }) root).0

-- init_pmm, up to its last call, the load of CR3 by set_pml4, which is Run.set_pml4. ppa_get_mem_total() is read in every round of the
-- first loop; no round changes it.
unfoldable pub init_pmm : Paging → ℕ → ℕ → Paging
unfolding new_root map_pages
init_pmm s fbbase fbsize =
    let s0 = new_root s in
    let s1 = map_pages s0 0 (rounds s0.frames.mem_total 4096) in
    map_pages s1 fbbase (rounds fbsize 4096)

-- BootInfo and FrameBuffer of src/kernel.h, and the linker's _kernel_start and _kernel_end.
pub record BootInfo : Type 0 where
  pub fbbase : ℕ
  pub fbsize : ℕ
  pub width : ℕ
  pub height : ℕ
  pub ppsl : ℕ
  pub mmap : ℕ
  pub mmap_size : ℕ
  pub mmap_desc_size : ℕ
  pub kernel_start : ℕ
  pub kernel_end : ℕ

-- kernel_size / 4096 + (kernel_size % 4096 != 0 ? 1 : 0)
abbrev pub kernel_pages : BootInfo → ℕ
kernel_pages b =
    let size = sub64 b.kernel_end b.kernel_start in
    size / 4096 + (if size % 4096 == 0 then 0 else 1)

-- The part of init_kernel that sets the allocator up: it locks the kernel and the framebuffer, which
-- counts as a page longer.
unfoldable pub init_frames : BootInfo → Frames → Frames
init_frames b f =
    let f1 = ppa_init f b.mmap b.mmap_size b.mmap_desc_size in
    let f2 = lckn f1 b.kernel_start (kernel_pages b) in
    lckn f2 b.fbbase (add64 b.fbsize 4096 / 4096)

-- init_frames and init_pmm, as init_kernel calls them.
unfoldable pub init_memory : BootInfo → Paging → Paging
unfolding init_frames init_pmm
init_memory b s =
    init_pmm (record s { frames = init_frames b s.frames }) b.fbbase (add64 b.fbsize 4096)
