-- ===== src/Kernel/Start.antt =====
-- The kernel's start from ppa_init to init_pmm, as init_kernel runs it.
use si_stultum.Base.{ℕ, ◌+◌, ◌*◌, ◌/◌, ◌%◌, ◌^◌, ◌≤◌, ◌<◌, true, false, ◌≡◌, ◌≢◌, arith}
use si_stultum.Base.{add64}
use si_stultum.Frames.{Frames, bitmap_get, lckn}
use si_stultum.Frames.Bitmap.{Outside}
use si_stultum.Frames.Range.{IsRun, lckn-IsRun}
use si_stultum.Frames.Init.{counted, ppa_init}
use si_stultum.Frames.Init.Fill.{IsFilled}
use si_stultum.Frames.Init.Done.{IsPlanned, totals, ppa_init-IsFilled}
use si_stultum.Memory.{Memory}
use si_stultum.PageMap.Tree.{IsHeld}
use si_stultum.Kernel.Pages.{BootInfo, kernel_pages, init_frames}

-- No frame that is free holds a byte of the bitmap.
abbrev IsApart : Frames → Type 0
IsApart f =
    (j a : ℕ)
    → j ≤ f.max_index
    → bitmap_get f j ≡ false
    → 4096 * j ≤ a
    → a < 4096 * j + 4096
    → Outside f a

-- What init_kernel expects: the allocator is new, the map has a conventional segment that does not
-- begin at 0, the largest one begins at a page, the map meets what ppa_init expects, memory and the
-- framebuffer end below 2 ^ 48, and the kernel below 2 ^ 64.
pub record IsBootable (b : BootInfo) (f : Frames) : Type 0 where
  pub first : f.ppa_initialized ≡ false
  pub some_segment : (totals f b.mmap b.mmap_size b.mmap_desc_size).largest_segment ≢ 0
  pub aligned : (totals f b.mmap b.mmap_size b.mmap_desc_size).largest_segment % 4096 ≡ 0
  pub plan :
      IsPlanned
        (counted f (totals f b.mmap b.mmap_size b.mmap_desc_size))
        b.mmap
        b.mmap_size
        b.mmap_desc_size
        (totals f b.mmap b.mmap_size b.mmap_desc_size).largest_segment
        ((totals f b.mmap b.mmap_size b.mmap_desc_size).mem_total / 4096)
  pub memory_end : (totals f b.mmap b.mmap_size b.mmap_desc_size).mem_total < 2 ^ 48
  pub kernel_end : b.kernel_start + 4096 * kernel_pages b < 2 ^ 64
  pub framebuffer_end : b.fbbase + b.fbsize + 8192 ≤ 2 ^ 48

module _ (b : BootInfo) (f : Frames) (boot : IsBootable b f) where
  abbrev initial : Frames
  initial = ppa_init f b.mmap b.mmap_size b.mmap_desc_size

  filled :
      IsFilled f.memory b.mmap b.mmap_size b.mmap_desc_size
        (totals f b.mmap b.mmap_size b.mmap_desc_size).largest_segment
        ((totals f b.mmap b.mmap_size b.mmap_desc_size).mem_total / 4096)
        initial
  filled =
      ppa_init-IsFilled f b.mmap b.mmap_size b.mmap_desc_size boot.first boot.some_segment boot.plan

  kernel_locked :
      IsRun initial
        (b.kernel_start / 4096)
        (kernel_pages b)
        true
        (lckn initial b.kernel_start (kernel_pages b))
  kernel_locked = lckn-IsRun initial b.kernel_start (kernel_pages b) filled.valid boot.kernel_end

  framebuffer_locked :
      IsRun
        (lckn initial b.kernel_start (kernel_pages b))
        (b.fbbase / 4096)
        (add64 b.fbsize 4096 / 4096)
        true
        (init_frames b f)
  unfolding init_frames
  framebuffer_locked =
      lckn-IsRun (lckn initial b.kernel_start (kernel_pages b)) b.fbbase
        (add64 b.fbsize 4096 / 4096) kernel_locked.valid (omega (arith, boot.framebuffer_end))

  -- The first 256 frames are taken.
  low_taken : (j : ℕ) → j < 256 → j ≤ initial.max_index → bitmap_get (init_frames b f) j ≡ true
  low_taken j low within =
      let first : bitmap_get initial j ≡ true =
        ground (arith, low, filled.marked j (omega (arith, within, filled.max_lem))) in
      let second = kernel_locked.marked j within in
      let third = framebuffer_locked.marked j (omega (arith, within, kernel_locked.same_max)) in
      ground (arith, first, second, third)

  -- Every frame in the bitmap is below mem_total.
  pub max_index-le : 4096 * ((init_frames b f).max_index + 1) ≤ (init_frames b f).mem_total
  max_index-le = omega (
    arith, filled.max_lem, filled.total_lem, kernel_locked.same_total, kernel_locked.same_max,
    framebuffer_locked.same_total, framebuffer_locked.same_max,
  )

-- Frame j is one of the first 256, lies in memory, and holds no byte of the bitmap that ppa_init puts at the
-- largest segment.
pub record IsLow (b : BootInfo) (f : Frames) (j : ℕ) : Type 0 where
  pub low : j < 256
  pub within : 4096 * j + 4096 ≤ (totals f b.mmap b.mmap_size b.mmap_desc_size).mem_total
  pub off : (a : ℕ) → 4096 * j ≤ a → a < 4096 * j + 4096 → Outside (init_frames b f) a

pub init_frames-IsHeld :
    (b : BootInfo) (f : Frames) (j : ℕ) → IsBootable b f → IsLow b f j → IsHeld (init_frames b f) j
init_frames-IsHeld b f j boot is_low = (
  low_taken b f boot j is_low.low (omega (arith, is_low.within, (filled b f boot).max_lem)),
  is_low.off,
)
