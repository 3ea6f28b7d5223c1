-- ===== src/Kernel/Trial.antt =====
-- The kernel's whole start on a concrete machine.
use si_stultum.Base.{◌+◌, ◌%◌, true, false}
use si_stultum.Base.{[], ◌==◌, if◌then◌else◌}
use si_stultum.Memory.{Memory}
use si_stultum.PageMap.{find_paddr}
use si_stultum.Ports.Machine.{Device}
use si_stultum.Kernel.Pages.{BootInfo}
use si_stultum.Kernel.Run.{Kernel, Platform}

-- 300 pages of conventional memory from 4096 on, in a memory map of one descriptor of 48 bytes at 2048.
abbrev map_bytes : Memory
map_bytes a =
    if a == 2048
    then 7
    else if a == 2057
    then 16
    else if a == 2072
    then 44
    else if a == 2073
    then 1
    else 0

-- The transmitter is always ready.
abbrev ready : Device
ready history port = 0x60

abbrev platform : Platform
platform = record {
  device = ready;
  ssfn_putc = λ ch c. c;
  translate = λ s v. find_paddr s v + v % 4096;
  handlers = record {
    page_fault = 0x100100;
    double_fault = 0x100200;
    general_protection_fault = 0x100300;
    timer = 0x100400;
    keyboard = 0x100500;
  };
  gdt = 0x101000;
  stack = 0x90000;
  stack_end = 0x92000;
  font_width = 8;
  font_height = 16;
}

abbrev boot : BootInfo
boot = record {
  fbbase = 0x80000000;
  fbsize = 4096;
  width = 32;
  height = 32;
  ppsl = 32;
  mmap = 2048;
  mmap_size = 48;
  mmap_desc_size = 48;
  kernel_start = 0x100000;
  kernel_end = 0x102000;
}

abbrev off : Kernel
off = record {
  paging = record {
    pml4 = 0;
    frames = record {
      size = 0;
      max_index = 0;
      data_addr = 0;
      mem_used = 0;
      mem_rsvd = 0;
      mem_free = 0;
      mem_total = 0;
      ppa_initialized = false;
      last_hit = 0;
      defined = true;
      memory = map_bytes;
    };
  };
  machine = record { history = []; interrupts = false; ms_count = 0 };
  console = record {
    font_width = 0;
    font_height = 0;
    ptr = 0;
    w = 0;
    h = 0;
    p = 0;
    x = 0;
    y = 0;
    fg = 0;
    bg = 0;
    memory = map_bytes;
  };
  gdtr = record { size = 0; offset = 0 };
  idtr = record { size = 0; offset = 0 };
}
