-- ===== src/Kernel/Run.antt =====
-- init_kernel and _start of src/kernel.c up to the loop that waits for the timer. An interrupt that comes
-- before that loop is not modelled here. `none` means that fuel ran out, that a format is undefined, or that the
-- kernel faults since a page that it uses is not mapped to itself.
use si_stultum.Base.{
  chars, ◌>>=◌, ℕ, zero, suc, ◌+◌, ◌-◌, ◌*◌, ◌/◌, Bool, true, ◌==◌, ◌&&◌, if◌then◌else◌, Option,
  none, some, List, [], ◌∷◌, u32,
}
use si_stultum.Frames.Init.{rounds}
use si_stultum.Console.{Console, Renderer, conlib_init}
use si_stultum.Format.Directive.{Arg, word, text}
use si_stultum.Frames.{Frames}
use si_stultum.PageMap.{Paging, find_paddr, with_memory}
use si_stultum.Ports.Machine.{Machine, Device}
use si_stultum.Ports.Serial.{init_serial}
use si_stultum.Ports.Print.{serial_printf}
use si_stultum.Kernel.Greeting.{greet}
use si_stultum.Kernel.Interrupts.{Handlers, Descriptor, init_gdt, init_idt}
use si_stultum.Kernel.Pages.{BootInfo, init_frames, init_memory}
use si_stultum.Kernel.Virtual.{Mmu, map_text, load_text}

-- The kernel's state: the allocator, the tables and physical memory; the ports, the interrupt flag and the
-- counter; the console, whose frame buffer lies in the same memory; and the loaded descriptors.
pub record Kernel : Type 0 where
  pub paging : Paging
  pub machine : Machine
  pub console : Console
  pub gdtr : Descriptor
  pub idtr : Descriptor

-- What lies outside the C code: the hardware, the font renderer, the walk of the tables, the addresses of the
-- handlers and of DEFAULT_GDT, the bytes of the stack that the boot loader left, and the size of the font.
pub record Platform : Type 0 where
  pub device : Device
  pub ssfn_putc : Renderer
  pub translate : Mmu
  pub handlers : Handlers
  pub gdt : ℕ
  pub stack : ℕ
  pub stack_end : ℕ
  pub font_width : ℕ
  pub font_height : ℕ

-- "[MEM] %d KB USED   %d KB RESERVED   %d KB FREE   %d KB TOTAL\n"
abbrev pub mem_format : List ℕ
mem_format = chars "[MEM] %d KB USED   %d KB RESERVED   %d KB FREE   %d KB TOTAL\n"

abbrev pub mem_args : Frames → List Arg
mem_args f =
    word (f.mem_used / 1024)
    ∷ (word (f.mem_rsvd / 1024) ∷ (word (f.mem_free / 1024) ∷ (word (f.mem_total / 1024) ∷ [])))

-- The n pages from a page number on map to themselves. At page 0 pmm_find_paddr answers 0 in either case.
unfoldable pub is_mirrored : Paging → ℕ → ℕ → Bool
unfolding find_paddr
is_mirrored s page zero = true
is_mirrored s page (suc n) =
    let rest = is_mirrored s (page + 1) n in (find_paddr s (4096 * page) == 4096 * page) && rest

-- The pages of the bytes from `start` up to `stop` do.
unfoldable pub is_span_mirrored : Paging → ℕ → ℕ → Bool
unfolding is_mirrored rounds
is_span_mirrored s start stop = is_mirrored s (start / 4096) (rounds stop 4096 - start / 4096)

module _ (p : Platform) where
  -- The code, the globals and the stack are where the kernel expects them.
  unfoldable pub is_running : BootInfo → Paging → Bool
  unfolding is_span_mirrored
  is_running b s =
      is_span_mirrored s b.kernel_start b.kernel_end && is_span_mirrored s p.stack p.stack_end

  -- And so are the bitmap, and every frame in it: those that ppa_request grants, and those that hold the tables.
  unfoldable pub is_reached : BootInfo → Frames → Paging → Bool
  unfolding is_running is_span_mirrored is_mirrored
  is_reached b f s =
      is_running b s
      && is_span_mirrored s f.data_addr (f.data_addr + 4 * f.size)
      && is_mirrored s 0 (f.max_index + 1)

  -- set_pml4, the last call of init_pmm: from here on all accesses go by the tables. The pages that the kernel uses
  -- must map to themselves, or it faults, and there is no handler yet; then addresses mean what they meant before.
  -- f is the allocator as ppa_init and the locks left it, which says where the bitmap lies.
  unfoldable pub set_pml4 : BootInfo → Frames → Kernel → Option Kernel
  unfolding is_reached
  set_pml4 b f k = if is_reached b f k.paging then some k else none

  -- The kernel goes on if its code, its globals and its stack are still where it expects them.
  unfoldable pub go_on : BootInfo → Kernel → Option Kernel
  unfolding is_running
  go_on b k = if is_running b k.paging then some k else none

  -- init_gdt, with the descriptor that it loads.
  unfoldable pub load_gdt : Kernel → Kernel
  unfolding init_gdt
  load_gdt k =
      let (m, gdtr) = init_gdt p.gdt k.paging.frames.memory in
      record k { paging = with_memory k.paging m; gdtr = gdtr }

  -- conlib_init, the allocator and init_pmm but for its last call, set_pml4.
  unfoldable pub load_memory : BootInfo → Kernel → Kernel
  unfolding conlib_init init_memory
  load_memory b k = record k {
    paging = init_memory b k.paging;
    console =
        conlib_init p.font_width p.font_height b.fbbase b.width b.height (u32 (b.ppsl * 4))
          k.paging.frames.memory;
  }

  -- init_idt, with the descriptor that it loads.
  unfoldable pub load_idt : Kernel → Kernel
  unfolding init_idt
  load_idt k =
      let core =
        init_idt p.device p.handlers
          (record { frames = k.paging.frames; machine = k.machine; idtr = k.idtr }) in
      record k {
        paging = record k.paging { frames = core.frames };
        machine = core.machine;
        idtr = core.idtr;
      }

module _ (p : Platform) (fuel : ℕ) where
  -- serial_printf
  unfoldable pub log : List ℕ → List Arg → Kernel → Option Kernel
  unfolding serial_printf
  log format args k = do
    m ← serial_printf p.device fuel format args k.machine
    some (record k { machine = m })

  unfoldable pub init_kernel : BootInfo → Kernel → Option Kernel
  unfolding log load_gdt load_memory set_pml4 load_idt
  init_kernel b k = do
    k1 ← log (chars "GDT loaded.\n") [] (load_gdt p k)
    k2 ← set_pml4 p b (init_frames b k1.paging.frames) (load_memory p b k1)
    log (chars "IDT loaded.\n") [] (load_idt p k2)

  -- The test of the memory mapping, which prints the text from its virtual address.
  unfoldable pub test_mapping : BootInfo → Kernel → Option Kernel
  unfolding log map_text load_text go_on
  test_mapping b k = do
    k1 ← log (chars "Testing memory mapping...\n") [] k
    k2 ← go_on p b (record k1 { paging = map_text p.translate k1.paging })
    str ← load_text p.translate fuel k2.paging 0x600000000
    k3 ← log (chars "%s\n") (text str ∷ []) k2
    log (chars "Memory mapping OK.\n") [] k3

  -- _start up to the second line about memory.
  unfoldable pub start : BootInfo → Kernel → Option Kernel
  unfolding init_serial log init_kernel test_mapping
  start b k = do
    let k0 = record k { machine = (init_serial p.device k.machine).0 }
    k1 ← log (chars "Serial logging enabled.\n") [] k0
    k2 ← init_kernel b k1
    k3 ← log mem_format (mem_args k2.paging.frames) k2
    k4 ← test_mapping b k3
    log mem_format (mem_args k4.paging.frames) k4

  -- The rest of _start before its loops, on the screen.
  unfoldable pub welcome : Kernel → Option Kernel
  unfolding greet
  welcome k = do
    c ← greet p.ssfn_putc fuel (record k.console { memory = k.paging.frames.memory })
    some (record k { console = c; paging = with_memory k.paging c.memory })
