-- ===== src/Boot/Start.antt =====
-- efi_main of src/bootloader.c: the order of its steps.
use si_stultum.Base.{ℕ, ◌+◌, ◌*◌, ◌≤◌, ◌<◌, Bool, true, false, ◌≡◌, ◌≢◌}
use si_stultum.Memory.{load}
use si_stultum.Boot.{success, is_error, Firmware, program_header, segment_pages, is_refused}

-- What the firmware says of the key of its memory map: a loaded map comes with the key, an allocation of pages
-- that is granted changes the map and counts its key up, no call counts it down, and ExitBootServices refuses
-- another key than that of the map. `granted` says whether AllocatePages finds so many pages at an address.
pub record IsKeyed {ℓ} {World : Type ℓ} (fw : Firmware World) (map_key : World → ℕ)
    (granted : ℕ → ℕ → World → Bool) : Type ℓ where
  pub loaded_key :
      (size buffer : ℕ) (w : World)
      → (fw.memory_map size buffer w).1.status ≡ success
      → (fw.memory_map size buffer w).1.key ≡ map_key (fw.memory_map size buffer w).0
  pub pages_granted :
      (a n : ℕ) (w : World)
      → 0 < n
      → granted a n w ≡ true
      → map_key w < map_key (fw.allocate_pages a n w).0
  pub pool : (n : ℕ) (w : World) → map_key w ≤ map_key (fw.allocate_pool n w).0
  pub pages : (a n : ℕ) (w : World) → map_key w ≤ map_key (fw.allocate_pages a n w).0
  pub open_lem : (w : World) → map_key w ≤ map_key (fw.open_kernel w)
  pub position : (p : ℕ) (w : World) → map_key w ≤ map_key (fw.set_position p w)
  pub read : (n a : ℕ) (w : World) → map_key w ≤ map_key (fw.read n a w)
  pub refuses :
      (key : ℕ) (w : World) → key ≢ map_key w → is_error (fw.exit_boot_services key w).1 ≡ true

-- The states of GetKernelEntry behind its first read, which is that of the file's header, and behind the read of
-- the program headers, and where these lie.
abbrev pub header_read {ℓ} : {World : Type ℓ} → Firmware World → ℕ → World → World
header_read fw headers w = fw.read 64 headers (fw.open_kernel w)

abbrev pub table_size {ℓ} : {World : Type ℓ} → Firmware World → ℕ → World → ℕ
table_size fw headers w =
    let m = fw.memory (header_read fw headers w) in
    load 2 (headers + 56) m * load 2 (headers + 54) m

abbrev pub table_base {ℓ} : {World : Type ℓ} → Firmware World → ℕ → World → ℕ
table_base fw headers w = (fw.allocate_pool (table_size fw headers w) (header_read fw headers w)).1

abbrev pub table_read {ℓ} : {World : Type ℓ} → Firmware World → ℕ → World → World
table_read fw headers w = fw.read (table_size fw headers w) (table_base fw headers w) (
    fw.set_position (load 8 (headers + 32) (fw.memory (header_read fw headers w)))
      (fw.allocate_pool (table_size fw headers w) (header_read fw headers w)).0)

-- The kernel's file, opened in state w, is accepted, and its first program header is that of a segment to load, of
-- a page at least, whose pages AllocatePages grants.
pub record IsLoading {ℓ} {World : Type ℓ} (fw : Firmware World) (granted : ℕ → ℕ → World → Bool)
    (headers : ℕ) (w : World) : Type ℓ where
  pub accepted : is_refused fw (fw.memory (header_read fw headers w)) headers ≡ false
  pub some_header : 0 < load 2 (headers + 56) (fw.memory (header_read fw headers w))
  pub loads :
      let w' = table_read fw headers w in
      let p = program_header (fw.memory w') (table_base fw headers w) 0 in
      (p.p_type ≡ 1) × (0 < segment_pages p) × (granted p.p_paddr (segment_pages p) w' ≡ true)
