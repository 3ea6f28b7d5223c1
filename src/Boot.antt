-- ===== src/Boot.antt =====
-- The boot loader, src/bootloader.c. The services of the firmware and of its library are parameters. The
-- places of the fields in an ELF file's headers, and the numbers there, are those of the ELF standard.
pub mod Map
pub mod Screen
pub mod Segment
pub mod Segments
pub mod Start
pub mod Report
mod Tests
use si_stultum.Base.{
  ℕ, zero, suc, ◌+◌, ◌-◌, ◌*◌, ◌/◌, ◌%◌, ◌^◌, Bool, true, false, Option, none, some,
}
use si_stultum.Base.{◌==◌, not, ◌||◌, if◌then◌else◌, List, [], ◌∷◌, add64, sub64}
use si_stultum.Memory.{Memory, load, load32, load64}

-- EFI_STATUS; a warning is neither a success nor an error.
pub data Status : Type 0 where
  success : Status
  buffer_too_small : Status
  not_started : Status
  not_found : Status
  load_error : Status
  warning : ℕ → Status
  other_error : ℕ → Status

-- EFI_ERROR.
unfoldable pub is_error : Status → Bool
is_error success = false
is_error (warning n) = false
is_error buffer_too_small = true
is_error not_started = true
is_error not_found = true
is_error load_error = true
is_error (other_error n) = true

-- FrameBuffer of src/kernel.h.
pub record FrameBuffer : Type 0 where
  pub fbbase : ℕ
  pub fbsize : ℕ
  pub height : ℕ
  pub width : ℕ
  pub ppsl : ℕ

-- What the firmware's GetMemoryMap stores through its pointers, and its status.
pub record MapAnswer : Type 0 where
  pub status : Status
  pub size : ℕ
  pub key : ℕ
  pub descriptor_size : ℕ

-- The memory map that GetMemoryMap returns: its buffer, or 0 for NULL, and what it stored.
pub record LoadedMap : Type 0 where
  pub buffer : ℕ
  pub size : ℕ
  pub key : ℕ
  pub descriptor_size : ℕ

-- The firmware's services, on a state of the machine; open_kernel opens the volume and the kernel's
-- file on it, and read reads so many bytes of the file to an address.
pub record Firmware {ℓ} (World : Type ℓ) : Type ℓ where
  pub memory : World → Memory
  pub allocate_pool : ℕ → World → World × ℕ
  pub allocate_pages : ℕ → ℕ → World → World × ℕ
  pub memory_map : ℕ → ℕ → World → World × MapAnswer
  pub exit_boot_services : ℕ → World → World × Status
  pub locate_gop : World → World × Status
  pub gop_mode : World → Option ℕ
  pub query_mode : ℕ → World → World × Status
  pub set_mode : ℕ → World → World × Status
  pub frame_buffer : World → FrameBuffer
  pub open_kernel : World → World
  pub set_position : ℕ → World → World
  pub read : ℕ → ℕ → World → World
  pub strncmpa : Memory → ℕ → List ℕ → ℕ → ℕ

-- The fields of Elf64_Phdr at an address.
pub record ProgramHeader : Type 0 where
  pub p_type : ℕ
  pub p_offset : ℕ
  pub p_paddr : ℕ
  pub p_filesz : ℕ
  pub p_memsz : ℕ

-- ProgramHeaders[i].
abbrev pub program_header : Memory → ℕ → ℕ → ProgramHeader
program_header m base i =
    let a = base + 56 * i in
    record {
      p_type = load32 a m;
      p_offset = load64 (a + 8) m;
      p_paddr = load64 (a + 24) m;
      p_filesz = load64 (a + 32) m;
      p_memsz = load64 (a + 40) m;
    }

-- ELFMAG.
abbrev pub elfmag : List ℕ
elfmag = 0x7f ∷ (b'E' ∷ (b'L' ∷ (b'F' ∷ [])))

-- The pages that a segment is given.
abbrev pub segment_pages : ProgramHeader → ℕ
segment_pages p = sub64 (add64 p.p_memsz 0x1000) 1 / 0x1000

module _ {ℓ} {World : Type ℓ} (fw : Firmware World) where
  -- GetMemoryMap; `none` means that the fuel ran out.
  unfoldable pub get_memory_map : ℕ → ℕ → World → Option (World × LoadedMap)
  get_memory_map zero size w = none
  get_memory_map (suc fuel) size w =
      let (w1, buffer) = fw.allocate_pool size w in
      let (w2, answer) = fw.memory_map size buffer w1 in
      let rest = get_memory_map fuel answer.size w2 in
      let found : ℕ → LoadedMap = λ at. record {
        buffer = at;
        size = answer.size;
        key = answer.key;
        descriptor_size = answer.descriptor_size;
      } in
      elim answer.status [
        | buffer_too_small ↦ rest
        | success ↦ some (w2, found buffer)
        | warning n ↦ some (w2, found buffer)
        | not_started ↦ some (w2, found 0)
        | not_found ↦ some (w2, found 0)
        | load_error ↦ some (w2, found 0)
        | other_error n ↦ some (w2, found 0)
      ]

  -- GetGop: whether a graphics output was found.
  unfoldable pub get_gop : World → World × Bool
  unfolding is_error
  get_gop w = let (w1, status) = fw.locate_gop w in (w1, not (is_error status))

  -- The mode that InitializeGop asks for, and the status of the first of its two calls.
  unfoldable pub query : World → World × Status
  query w = fw.query_mode (elim (fw.gop_mode w) [ none ↦ 0 | some mode ↦ mode ]) w

  -- if (Status == EFI_NOT_STARTED) Status = SetMode(Gop, 0);
  unfoldable pub start_mode : World × Status → World × Status
  start_mode (w, not_started) = fw.set_mode 0 w
  start_mode (w, status) = (w, status)

  -- InitializeGop: the frame buffer, or none, and the status.
  unfoldable pub initialize_gop : World → World × Option FrameBuffer × Status
  unfolding get_gop query start_mode is_error
  initialize_gop w =
      let (w1, found) = get_gop w in
      let (w2, status) = start_mode (query w1) in
      if not found
      then (w1, none, not_found)
      else if is_error status
      then (w2, none, status)
      else (w2, some (fw.frame_buffer w2), success)

  -- The conditions under which GetKernelEntry refuses the ELF header at an address.
  unfoldable pub is_refused : Memory → ℕ → Bool
  is_refused m headers =
      not (fw.strncmpa m headers elfmag 4 == 0)
      || (not (load 1 (headers + 4) m == 2)
          || (not (load 1 (headers + 5) m == 1)
              || (not (load 2 (headers + 16) m == 2)
                  || (not (load 2 (headers + 18) m == 62) || not (load 4 (headers + 20) m == 1)))))

  -- The body of the loop over the program headers, at a header that has been read.
  unfoldable pub load_segment : ProgramHeader → World → World
  load_segment p w =
      let (w1, segment) = fw.allocate_pages p.p_paddr (segment_pages p) w in
      let w' = fw.read p.p_filesz segment (fw.set_position p.p_offset w1) in
      if p.p_type == 1 then w' else w

  -- The loop over the program headers, at header i with `left` rounds left.
  unfoldable pub load_segments : ℕ → ℕ → ℕ → World → World
  unfolding load_segment
  load_segments base i zero w = w
  load_segments base i (suc left) w =
      load_segments base (i + 1) left (load_segment (program_header (fw.memory w) base i) w)

  -- GetKernelEntry, with its local Headers at an address: the entry, or none for NULL with
  -- EFI_LOAD_ERROR.
  unfoldable pub get_kernel_entry : ℕ → World → World × Option ℕ
  unfolding is_refused load_segments
  get_kernel_entry headers w =
      let w1 = fw.read 64 headers (fw.open_kernel w) in
      let m = fw.memory w1 in
      let phnum = load 2 (headers + 56) m in
      let load_size = phnum * load 2 (headers + 54) m in
      let (w2, base) = fw.allocate_pool load_size w1 in
      let w3 = fw.read load_size base (fw.set_position (load 8 (headers + 32) m) w2) in
      let w4 = load_segments base 0 phnum w3 in
      if is_refused m headers then (w1, none) else (w4, some (load 8 (headers + 24) (fw.memory w4)))

-- What efi_main comes to: its endless loop, or the kernel's entry, which it calls whatever the status
-- of ExitBootServices is.
pub data Outcome {ℓ} (World : Type ℓ) : Type ℓ where
  halted : World → Outcome World
  started :
      (entry : ℕ) (screen : FrameBuffer) (map : LoadedMap) (exit : Status) (w : World)
      → Outcome World

module _ {ℓ} {World : Type ℓ} (fw : Firmware World) where
  -- efi_main behind the search for the kernel.
  unfoldable pub enter : FrameBuffer → LoadedMap → World × Option ℕ → Outcome World
  enter screen map (w, none) = halted w
  enter screen map (w, some entry) =
      let (w', status) = fw.exit_boot_services map.key w in started entry screen map status w'

  -- efi_main, without what it prints; sizeof(EFI_MEMORY_DESCRIPTOR) is 40.
  unfoldable pub efi_main : ℕ → ℕ → World → Option (Outcome World)
  unfolding initialize_gop get_memory_map get_kernel_entry enter
  efi_main fuel headers w =
      let (w1, shown, status) = initialize_gop fw w in
      elim shown [
        | none ↦ some (halted w1)
        | some screen ↦ elim (get_memory_map fw fuel 40 w1) [
          | none ↦ none
          | some (w2, map) ↦
              if map.buffer == 0
              then some (halted w2)
              else some (enter screen map (get_kernel_entry fw headers w2))
        ]
      ]
