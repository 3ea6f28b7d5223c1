-- ===== src/Kernel/Tests.antt =====
-- The page tables of the kernel's start at a concrete allocator.
use si_stultum.Base.{ℕ, ◌*◌, ◌/◌, ◌≤◌, true, false, ◌≡◌, refl, arith}
use si_stultum.Base.{[], ◌==◌, if◌then◌else◌}
use si_stultum.Memory.{load}
use si_stultum.Frames.{Frames, bitmap_get, request}
use si_stultum.Frames.Lock.{count}
use si_stultum.Frames.Request.{IsGrant}
use si_stultum.Frames.Init.{rounds}
use si_stultum.Frames.Supply.{grantable}
use si_stultum.PageMap.{Paging, map_memory}
use si_stultum.PageMap.Map.{IsMapped, map_memory-IsMapped}
use si_stultum.Kernel.Pages.{new_root, BootInfo}
use si_stultum.Kernel.Interrupts.{Handlers, Core, init_idt, IsInstalled, init_idt-IsInstalled}
use si_stultum.Ports.Machine.{Device}
use si_stultum.Kernel.Identity.{tables_for, tables, unshared, missing-le}
use si_stultum.Kernel.Root.{IsReady, IsRooted, new_root-IsRooted, all_tables}

-- 64 free frames, with the bitmap behind them.
abbrev room : Frames
room = record {
  size = 3;
  max_index = 63;
  data_addr = 262144;
  mem_used = 0;
  mem_rsvd = 0;
  mem_free = 262144;
  mem_total = 262144;
  ppa_initialized = true;
  last_hit = 0;
  defined = true;
  memory = λ a. 0;
}

abbrev blank : Paging
blank = record { pml4 = 0; frames = room }

room-supply : count (grantable room) 64 ≡ 64
unfolding count bitmap_get load
room-supply = refl

room-IsReady : (n : ℕ) → n ≤ 64 → IsReady room n
room-IsReady n h = record {
  bitmap = record { size_lem = refl; bytes = λ a. omega arith };
  small = omega arith;
  free_apart = λ j a le free lo hi. omega arith;
  supply = omega (arith, room-supply);
}

fresh : IsRooted blank 32 (new_root blank)
fresh = new_root-IsRooted blank 32 (room-IsReady 33 (omega arith))

map_memory-IsMapped_example :
    IsMapped
      (new_root blank)
      fresh.labels
      0x600000000
      0x80000
      1
      (map_memory (new_root blank) 0x600000000 0x80000)
map_memory-IsMapped_example =
    map_memory-IsMapped (new_root blank) fresh.labels 0x600000000 0x80000 1 fresh.tree (
      omega (
        arith,
        fresh.supply,
        missing-le (new_root blank).frames.memory 3 ((new_root blank).pml4 / 4096) 0x600000000,
      ))

tables_low : tables_for 0 3 ≡ 3
unfolding tables unshared
tables_low = refl

room_rounds : all_tables 262144 0x80000000 8192 ≡ 7
unfolding tables unshared rounds
room_rounds = refl

rounds_64 : rounds 262144 4096 ≡ 64
unfolding rounds
rounds_64 = refl

rounds_2 : rounds 8192 4096 ≡ 2
unfolding rounds
rounds_2 = refl

-- 300 pages of conventional memory from 4096 on, in a memory map of one descriptor of 48 bytes at
-- 2048.
abbrev machine : Frames
machine = record {
  size = 0;
  max_index = 0;
  data_addr = 0;
  mem_used = 0;
  mem_rsvd = 0;
  mem_free = 0;
  mem_total = 0;
  ppa_initialized = false;
  last_hit = 0;
  defined = true;
  memory = λ a.
      if a == 2048
      then 7
      else if a == 2057
      then 16
      else if a == 2072
      then 44
      else if a == 2073
      then 1
      else 0;
}

abbrev boot : BootInfo
boot = record {
  fbbase = 0x80000000;
  fbsize = 4096;
  width = 32;
  height = 32;
  ppsl = 32;
  mmap = 2048;
  mmap_size = 48;
  mmap_desc_size = 48;
  kernel_start = 0x100000;
  kernel_end = 0x102000;
}

abbrev handlers : Handlers
handlers = record {
  page_fault = 0x101000;
  double_fault = 0x102000;
  general_protection_fault = 0x103000;
  timer = 0x104000;
  keyboard = 0x105000;
}

abbrev core : Core
core = record {
  frames = room;
  machine = record { history = []; interrupts = false; ms_count = 0 };
  idtr = record { size = 0; offset = 0 };
}

-- Every port answers 0.
abbrev mute : Device
mute history port = 0

enough_room : IsReady room 64
enough_room = room-IsReady 64 (omega arith)

init_idt-IsInstalled_example :
    let s' = init_idt mute handlers core in
    (c : ℕ) × IsGrant room c (request room)
    × (s'.idtr.offset ≡ c * 4096)
    × (s'.idtr.size ≡ 0x0fff)
    × IsInstalled (c * 4096) handlers (request room).0.memory s'.frames.memory
    × (s'.machine.interrupts ≡ true)
init_idt-IsInstalled_example =
    init_idt-IsInstalled mute handlers core 63
      (record {
        page_fault = omega arith;
        double_fault = omega arith;
        general_protection_fault = omega arith;
        timer = omega arith;
        keyboard = omega arith;
      })
      enough_room.bitmap enough_room.small enough_room.supply
