-- ===== src/Kernel/Launch.antt =====
-- _start of src/kernel.c as a whole, up to what it shows on the screen.
use si_stultum.Base.{ℕ, suc, ◌+◌, ◌*◌, ◌/◌, ◌^◌, ◌≤◌, ◌<◌, true, some, ◌≡◌, ◌≢◌, ◌⊎◌, add64}
use si_stultum.Frames.{Frames}
use si_stultum.Frames.Init.{rounds}
use si_stultum.Frames.Supply.{HasSupply}
use si_stultum.PageMap.{Paging, find_paddr}
use si_stultum.PageMap.Tree.{Labels, IsTree}
use si_stultum.PageMap.Map.{page_number}
use si_stultum.Ports.Machine.{Machine}
use si_stultum.Ports.Print.{IsPatient}
use si_stultum.Kernel.Identity.{InPages, OffPages}
use si_stultum.Kernel.Pages.{BootInfo, init_frames}
use si_stultum.Kernel.Root.{all_tables}
use si_stultum.Kernel.Start.{IsBootable, IsLow}
use si_stultum.Kernel.Virtual.{IsMmu, load_text, vstr_text}
use si_stultum.Kernel.Run.{Kernel, Platform, load_gdt, load_memory, load_idt}

-- What start leaves, with n frames to spare: every page that begins below mem_total, the sum of the sizes in the
-- memory map, and every page of the frame buffer, with a page behind it, maps to itself, but the one of the test,
-- and no other page below 2 ^ 48 is mapped; the text of the test is
-- at its virtual address; and the interrupts are on.
pub record IsStarted (p : Platform) (fuel : ℕ) (b : BootInfo) (f : Frames) (n : ℕ) (k : Kernel)
    : Type 0 where
  pub labels : Labels
  pub tree : IsTree k.paging labels
  pub mirrored :
      (w : ℕ)
      → page_number w ≢ page_number 0x600000000
      → InPages 0 (rounds (init_frames b f).mem_total 4096) w
        ⊎ InPages b.fbbase (rounds (add64 b.fbsize 4096) 4096) w
      → find_paddr k.paging w ≡ w / 2 ^ 12 * 2 ^ 12
  pub unmapped :
      (w : ℕ)
      → w < 2 ^ 48
      → page_number w ≢ page_number 0x600000000
      → OffPages 0 (rounds (init_frames b f).mem_total 4096) w
      → OffPages b.fbbase (rounds (add64 b.fbsize 4096) 4096) w
      → find_paddr k.paging w ≡ 0
  pub read_back : load_text p.translate fuel k.paging 0x600000000 ≡ some vstr_text
  pub interrupts : k.machine.interrupts ≡ true
  pub supply : HasSupply k.paging.frames n

module _ (p : Platform) (fuel : ℕ) (patient : IsPatient p.device fuel) where
  -- The state of init_kernel before its last message, from the machine after its first one.
  abbrev loaded : BootInfo → Kernel → Machine → Kernel
  loaded b k m = load_idt p (load_memory p b (record (load_gdt p k) { machine = m }))

-- The allocator that ppa_init gets: init_gdt has cleared a part of memory.
abbrev pub cleared : Platform → Kernel → Frames
cleared p k = (load_gdt p k).paging.frames

-- What _start relies on, with n frames to spare: the transmitter becomes ready within the fuel, which is also
-- enough for the text of the test; the processor walks the tables as pmm_find_paddr does; the machine can be
-- started; frame 0x80 is memory off the bitmap; the kernel's image and the stack lie below mem_total and below the
-- address of the test, and the bitmap below mem_total; and there are frames for all tables, those of the test among
-- them, and for the interrupt descriptor table.
pub record IsLaunchable (p : Platform) (fuel : ℕ) (b : BootInfo) (k : Kernel) (n : ℕ) : Type 0 where
  pub patient : IsPatient p.device fuel
  pub enough_fuel : 40 ≤ fuel
  pub mmu : IsMmu p.translate
  pub boot : IsBootable b (cleared p k)
  pub low : IsLow b (cleared p k) 0x80
  pub image :
      (b.kernel_start ≤ b.kernel_end) × (b.kernel_end ≤ (init_frames b (cleared p k)).mem_total)
  pub stack : (p.stack ≤ p.stack_end) × (p.stack_end ≤ (init_frames b (cleared p k)).mem_total)
  pub apart : (b.kernel_end ≤ 0x600000000) × (p.stack_end ≤ 0x600000000)
  pub bitmap : let f = init_frames b (cleared p k) in f.data_addr + 4 * f.size ≤ f.mem_total
  pub supply : HasSupply (init_frames b (cleared p k)) (
      all_tables (init_frames b (cleared p k)).mem_total b.fbbase (add64 b.fbsize 4096)
      + suc (3 + n))

module _ (p : Platform) (fuel : ℕ) (b : BootInfo) (k : Kernel) (n : ℕ)
    (ready : IsLaunchable p fuel b k n) where
  module _ (m : Machine) where
    abbrev paged : Paging
    paged = (loaded p fuel ready.patient b k m).paging
