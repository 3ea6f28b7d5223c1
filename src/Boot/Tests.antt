-- ===== src/Boot/Tests.antt =====
-- The boot loader on a small firmware, with an ELF file of two loadable segments.
use si_stultum.Base.{ap, ◌∙◌, ◌≤◌, ◌≢◌, List, length, Option, none}
use si_stultum.Boot.{not_found}
use si_stultum.Boot.Report.{
  Line, enabled, disabled, setup, Library, is_set, secure_boot_status, status_line, find_smbios,
  print_system_info, print_system_info_ends, status_line_lem,
}
use si_stultum.Base.{
  ℕ, zero, suc, ◌+◌, ◌-◌, ◌%◌, ◌<◌, Bool, true, false, some, ◌≡◌, refl, sym, arith,
}
use si_stultum.Base.{◌==◌, leb, ltb, ◌&&◌, if◌then◌else◌}
use mathlib.Core.Path.{subst}
use si_stultum.Memory.{Memory, load}
use si_stultum.Boot.{
  Status, success, buffer_too_small, not_started, other_error, is_error, LoadedMap, Firmware,
  program_header, get_memory_map, load_segments,
}
use si_stultum.Boot.Map.{IsMapService, IsLoaded, get_memory_map-IsLoaded}
use si_stultum.Boot.Segment.{IsFileService, Off, IsSegment}
use si_stultum.Boot.Segments.{IsLoadable, IsLoadedFrom, load_segments-IsLoadedFrom}

record World : Type 0 where
  bytes : Memory
  place : ℕ
  key : ℕ

-- The file: its header, one program header at 64, of a segment of 3 bytes from 200 on, and bytes that are their own position from 192 on.
abbrev file : ℕ → ℕ
file a =
    if a == 0
    then 0x7f
    else if a == 1
    then 69
    else if a == 2
    then 76
    else if a == 3
    then 70
    else if a == 4
    then 2
    else if a == 5
    then 1
    else if a == 16
    then 2
    else if a == 18
    then 62
    else if a == 20
    then 1
    else if a == 32
    then 64
    else if a == 54
    then 56
    else if a == 56
    then 1
    else if a == 64
    then 1
    else if a == 72
    then 200
    else if a == 90
    then 0x10
    else if a == 96
    then 3
    else if a == 104
    then 5
    else if ltb a 192
    then 0
    else a % 256

abbrev has_magic : Memory → ℕ → Bool
has_magic m a = (m a == 0x7f) && ((m (a + 1) == 69) && ((m (a + 2) == 76) && (m (a + 3) == 70)))

-- Each allocation of pages is granted and changes the memory map, which needs 96 bytes.
abbrev firmware : Firmware World
firmware = record {
  memory = λ w. w.bytes;
  allocate_pool = λ n w. (w, 0x5000);
  allocate_pages = λ a n w. (record w { key = w.key + 1 }, a);
  memory_map = λ size buffer w.
      if ltb size 96
      then (w, record { status = buffer_too_small; size = 96; key = w.key; descriptor_size = 48 })
      else (w, record { status = success; size = 96; key = w.key; descriptor_size = 48 });
  exit_boot_services = λ key w. (w, if key == w.key then success else other_error 2);
  locate_gop = λ w. (w, success);
  gop_mode = λ w. some 0;
  query_mode = λ mode w. (w, not_started);
  set_mode = λ mode w. (w, success);
  frame_buffer = λ w. record {
    fbbase = 0x80000000;
    fbsize = 0x300000;
    height = 768;
    width = 1024;
    ppsl = 1024;
  };
  open_kernel = λ w. record w { place = 0 };
  set_position = λ p w. record w { place = p };
  read = λ n a w. record w {
    bytes = λ b. if leb a b && ltb b (a + n) then file (w.place + (b - a)) else w.bytes b;
    place = w.place + n;
  };
  strncmpa = λ m a magic n. if has_magic m a then 0 else 1;
}

-- Two program headers at 0x5000: 3 bytes from 200 on to 0x100000, and 2 bytes from 300 on to 0x102000.
abbrev two_headers : Memory
two_headers a =
    if a == 0x5000
    then 1
    else if a == 0x5008
    then 200
    else if a == 0x501a
    then 0x10
    else if a == 0x5020
    then 3
    else if a == 0x5028
    then 5
    else if a == 0x5038
    then 1
    else if a == 0x5040
    then 44
    else if a == 0x5041
    then 1
    else if a == 0x5051
    then 0x20
    else if a == 0x5052
    then 0x10
    else if a == 0x5058
    then 2
    else if a == 0x5060
    then 2
    else 0

abbrev world : World
world = record { bytes = two_headers; place = 0; key = 7 }

map_service : IsMapService firmware (λ w. 96) 96
map_service = record {
  bounded = λ w. omega arith;
  refuses =
      λ size buffer w h. let short : ltb size 96 ≡ true = ground arith in rw short (refl, refl);
  answers = λ size buffer w h. let enough : ltb size 96 ≡ false = ground arith in rw enough refl;
  granted = λ size w e. absurd (omega arith);
}

get_memory_map-IsLoaded_example :
    (out : World × LoadedMap) × (get_memory_map firmware (suc 56) 40 world ≡ some out)
    × IsLoaded firmware (λ w. 96) out
get_memory_map-IsLoaded_example =
    get_memory_map-IsLoaded firmware (λ w. 96) 96 map_service 56 40 world (omega arith)

file_service : IsFileService firmware (λ w. w.place) file 1000
file_service = record {
  read_inside = λ n a k w fits h.
      let within : (leb a (a + k) && ltb (a + k) (a + n)) ≡ true = ground arith in
      let e : a + k - a ≡ k = omega arith in rw (within, e) refl;
  read_outside =
      λ n a b w out. let off : (leb a b && ltb b (a + n)) ≡ false = ground arith in rw off refl;
  positioned = λ p w. refl;
  same_memory = λ p b w. refl;
  pages_granted = λ a n w. refl;
  pages_outside = λ a n b w out. refl;
}

header_0 :
    program_header two_headers 0x5000 0
    ≡ record { p_type = 1; p_offset = 200; p_paddr = 0x100000; p_filesz = 3; p_memsz = 5 }
unfolding load
header_0 = refl

header_1 :
    program_header two_headers 0x5000 1
    ≡ record { p_type = 1; p_offset = 300; p_paddr = 0x102000; p_filesz = 2; p_memsz = 2 }
unfolding load
header_1 = refl

nth-IsSegment : (j : ℕ) → j < 2 → IsSegment 1000 (program_header two_headers 0x5000 j)
nth-IsSegment zero h = rw header_0 (record { in_file = omega arith; in_pages = omega arith })
nth-IsSegment (suc zero) h = rw header_1 (record { in_file = omega arith; in_pages = omega arith })
nth-IsSegment (suc (suc j)) h = absurd (omega arith)

nth-Off : (j b : ℕ) → j < 2 → b < 0x100000 → Off (program_header two_headers 0x5000 j) b
nth-Off zero b h low = subst (λ p. Off p b) (sym header_0) (omega arith)
nth-Off (suc zero) b h low = subst (λ p. Off p b) (sym header_1) (omega arith)
nth-Off (suc (suc j)) b h low = absurd (omega arith)

apart :
    (j k b : ℕ)
    → j < k
    → k < 2
    → b < (program_header two_headers 0x5000 j).p_filesz
    → Off (program_header two_headers 0x5000 k) ((program_header two_headers 0x5000 j).p_paddr + b)
apart zero (suc zero) b lo hi h =
    subst (λ p. b < p.p_filesz → Off (program_header two_headers 0x5000 1) (p.p_paddr + b))
      (sym header_0) (λ short. subst (λ q. Off q (0x100000 + b)) (sym header_1) (omega arith)) h
apart j zero b lo hi h = absurd (omega arith)
apart (suc j) (suc zero) b lo hi h = absurd (omega arith)
apart j (suc (suc k)) b lo hi h = absurd (omega arith)

two-IsLoadable : IsLoadable two_headers 0x5000 1000 0 2
two-IsLoadable = record {
  segment = λ j lo hi t. nth-IsSegment j hi;
  off_table = λ j b lo hi t lob hib. nth-Off j b hi (omega arith);
  off_others = λ j k b lo between hi t u h. apart j k b between hi h;
}

load_segments-IsLoadedFrom_example :
    IsLoadedFrom file two_headers 0x5000 0 2 (load_segments firmware 0x5000 0 2 world).bytes
load_segments-IsLoadedFrom_example =
    load_segments-IsLoadedFrom firmware (λ w. w.place) file 1000 file_service 0x5000 0 2 world
      two-IsLoadable

abbrev always : ℕ → ℕ → World → Bool
always a n w = true

-- Structures of four bytes each at 0x100, of the kinds 0, 1 and 127 by turns.
abbrev tables : Library
tables = record {
  revision = 0x20046;
  vendor = 1;
  firmware_revision = 2;
  smbios3 = (not_found, 0, 0);
  smbios = (success, 0x100, 64);
  kind = λ a. if a == 0x100 then 0 else if a == 0x104 then 1 else 127;
  vendor_at = λ a. 1;
  bios_version_at = λ a. 2;
  manufacturer_at = λ a. 3;
  product_name_at = λ a. 4;
  string_at = λ a i. a + i;
  behind = λ a. a + 4;
  secure_boot = some 1;
  setup_mode = some 1;
}

-- The size that a table gives.
abbrev size_in : Option (ℕ × ℕ) → ℕ
size_in none = 0
size_in (some (address, maximum)) = maximum

found_tables : find_smbios tables ≡ some (0x100, 64)
unfolding find_smbios is_error
found_tables = refl

print_system_info_ends_example :
    (lines : List Line) × (status : Status) × (print_system_info tables 65 ≡ some (lines, status))
    × (length lines ≤ 5)
print_system_info_ends_example =
    print_system_info_ends tables (λ a. (omega arith, omega arith)) 65
      λ address maximum found.
        let same : some (address, maximum) ≡ some (0x100, 64) = sym found ∙ found_tables in
        let size : maximum ≡ 64 = ap (λ (o : Option (ℕ × ℕ)). size_in o) same in
        (omega (arith, size), omega (arith, size))

status_line_lem_example :
    let line = status_line (secure_boot_status (some 1) (some 1)) in
    (line ≡ (if is_set (some 1) then enabled else disabled)) × (line ≢ setup)
status_line_lem_example = status_line_lem (some 1) (some 1)
