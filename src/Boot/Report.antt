-- ===== src/Boot/Report.antt =====
-- PrintSystemInfo, GetVolume and GetFileSize of src/bootloader.c. The firmware's tables and its library are
-- parameters; what is printed is a list of lines.
use si_stultum.Base.{
  ℕ, zero, suc, ◌+◌, ◌-◌, ◌*◌, ◌/◌, ◌%◌, ◌^◌, ◌≤◌, ◌<◌, true, false, Bool, Option, none, some, List,
  [], ◌∷◌, ◌++◌, length, length-append, ltb, ◌==◌, ◌&&◌, not, if◌then◌else◌, u8, add64, sub64, ◌≡◌,
  ◌≢◌, refl, arith, inl, inr, Bool-cases,
}
use si_stultum.Boot.{Status, success, not_found, other_error, is_error}

-- The lines; a string is the number by which the library knows it.
pub data Line : Type 0 where
  version : (major minor vendor revision : ℕ) → Line
  strings : (first second : ℕ) → Line
  noncompliant : Line
  enabled : Line
  setup : Line
  disabled : Line

-- The system table, the two configuration tables with the address and the size they give, the fields of the
-- structure at an address, the strings there by their index, the structure behind one, and two variables,
-- where there is one.
pub record Library : Type 0 where
  pub revision : ℕ
  pub vendor : ℕ
  pub firmware_revision : ℕ
  pub smbios3 : Status × ℕ × ℕ
  pub smbios : Status × ℕ × ℕ
  pub kind : ℕ → ℕ
  pub vendor_at : ℕ → ℕ
  pub bios_version_at : ℕ → ℕ
  pub manufacturer_at : ℕ → ℕ
  pub product_name_at : ℕ → ℕ
  pub string_at : ℕ → ℕ → ℕ
  pub behind : ℕ → ℕ
  pub secure_boot : Option ℕ
  pub setup_mode : Option ℕ

-- p != NULL && *p != 0
abbrev pub is_set : Option ℕ → Bool
is_set none = false
is_set (some v) = not (v == 0)

-- SecureBootStatus, a UINT8; -1 is stored as 255, and 0 stays 0.
unfoldable pub secure_boot_status : Option ℕ → Option ℕ → ℕ
secure_boot_status secure_boot setup_mode =
    let status = if is_set secure_boot then 1 else 0 in
    if is_set setup_mode then u8 (status * (2 ^ 32 - 1)) else status

-- The last message.
unfoldable pub status_line : ℕ → Line
status_line status = if ltb 0 status then enabled else if ltb status 0 then setup else disabled

module _ (lib : Library) where
  -- What the loop prints for a structure of kind 0 or 1.
  unfoldable pub structure_lines : ℕ → List Line
  structure_lines raw =
      if lib.kind raw == 0
      then strings (lib.string_at raw (lib.vendor_at raw))
          (lib.string_at raw (lib.bios_version_at raw))
        ∷ []
      else if lib.kind raw == 1
      then strings (lib.string_at raw (lib.manufacturer_at raw))
          (lib.string_at raw (lib.product_name_at raw))
        ∷ []
      else []

  -- The loop over the structures: its lines, and whether it aborts; `none` means that the fuel ran out.
  unfoldable pub structures_loop : ℕ → ℕ → ℕ → ℕ → ℕ → Option (List Line × Bool)
  unfolding structure_lines
  structures_loop zero maximum raw found processed = none
  structures_loop (suc fuel) maximum raw found processed =
      let ls = structure_lines raw in
      let processed' = add64 processed (sub64 (lib.behind raw) raw) in
      let rest = structures_loop fuel maximum (lib.behind raw) (found + length ls) processed' in
      let more : Option (List Line × Bool) = elim rest [
        | none ↦ none
        | some (lines, aborted) ↦ some (ls ++ lines, aborted)
      ] in
      if not (lib.kind raw == 0x7f) && ltb found 2
      then (if ltb maximum processed' then some (ls ++ (noncompliant ∷ []), true) else more)
      else some ([], false)

  -- The structures and the sizes that the tables give.
  unfoldable pub find_smbios : Option (ℕ × ℕ)
  unfolding is_error
  find_smbios = elim lib.smbios3.0 [
    | success ↦ some (lib.smbios3.1, lib.smbios3.2)
    | _ ↦ if is_error lib.smbios.0 then none else some (lib.smbios.1, lib.smbios.2)
  ]

  -- What PrintSystemInfo prints, and its status, where other_error 21 is EFI_ABORTED.
  unfoldable pub print_system_info : ℕ → Option (List Line × Status)
  unfolding find_smbios structures_loop secure_boot_status status_line
  print_system_info fuel =
      let first =
        version (lib.revision / 2 ^ 16) (lib.revision % 2 ^ 16) lib.vendor lib.firmware_revision in
      elim find_smbios [
        | none ↦ some (first ∷ [], not_found)
        | some (address, maximum) ↦ elim (structures_loop fuel maximum address 0 0) [
          | none ↦ none
          | some (lines, true) ↦ some (first ∷ lines, other_error 21)
          | some (lines, false) ↦ some (
            first
                ∷ (lines ++ (status_line (secure_boot_status lib.secure_boot lib.setup_mode) ∷ [])),
            success,
          )
        ]
      ]

-- The last message says whether secure boot is on, and takes no account of setup mode, whose message is never
-- printed.
pub status_line_lem :
    (secure_boot setup_mode : Option ℕ)
    → let line = status_line (secure_boot_status secure_boot setup_mode) in
      (line ≡ (if is_set secure_boot then enabled else disabled)) × (line ≢ setup)
unfolding status_line secure_boot_status
status_line_lem secure_boot setup_mode = elim (Bool-cases (is_set secure_boot)) [
  | inl on ↦ elim (Bool-cases (is_set setup_mode)) [
    | inl mode ↦ rw (on, mode) (refl, λ e. cc)
    | inr normal ↦ rw (on, normal) (refl, λ e. cc)
  ]
  | inr off ↦ elim (Bool-cases (is_set setup_mode)) [
    | inl mode ↦ rw (off, mode) (refl, λ e. cc)
    | inr normal ↦ rw (off, normal) (refl, λ e. cc)
  ]
]

-- The structures lie one behind the other, less than 2 ^ 62 bytes apart.
abbrev pub IsAdvancing : Library → Type 0
IsAdvancing lib = (a : ℕ) → (a < lib.behind a) × (lib.behind a ≤ a + 2 ^ 62)

module _ (lib : Library) (advancing : IsAdvancing lib) where
  length-structure_lines : (raw : ℕ) → length (structure_lines lib raw) ≤ 1
  unfolding structure_lines
  length-structure_lines raw = ground arith

  -- With fuel for each byte that is left of the size, the loop ends, and has printed at most two structures and
  -- the message of an abort.
  structures_loop_ends :
      (fuel maximum raw found processed : ℕ)
      → maximum < 2 ^ 62
      → processed ≤ maximum
      → maximum - processed < fuel
      → found ≤ 2
      → (lines : List Line) × (aborted : Bool) × (structures_loop lib fuel maximum raw found
            processed
          ≡ some (lines, aborted))
        × (found + length lines ≤ 3)
  unfolding structures_loop
  structures_loop_ends zero maximum raw found processed small within enough few =
      absurd (omega (arith, enough))
  structures_loop_ends (suc fuel) maximum raw found processed small within enough few =
      let ls = structure_lines lib raw in
      let processed' = add64 processed (sub64 (lib.behind raw) raw) in
      let advance = advancing raw in
      let exact : processed' ≡ processed + (lib.behind raw - raw) = omega (arith, advance) in
      let go = not (lib.kind raw == 0x7f) && ltb found 2 in
      let short = length-structure_lines raw in
      elim (Bool-cases go) [
        | inl goes ↦ elim (Bool-cases (ltb maximum processed')) [
          | inl over ↦ (
            ls ++ (noncompliant ∷ []),
            true,
            rw (goes, over) refl,
            ground (arith, short, goes, length-append {A = Line} ls (noncompliant ∷ [])),
          )
          | inr fine ↦
              let within' : processed' ≤ maximum = ground (arith, fine) in
              let (lines, aborted, ended, count) =
                structures_loop_ends fuel maximum (lib.behind raw) (found + length ls) processed'
                  small within' (omega (arith, exact, advance, enough, within, within'))
                  (ground (arith, short, goes)) in
              (
                ls ++ lines,
                aborted,
                rw (goes, fine, ended) refl,
                omega (arith, count, length-append {A = Line} ls lines),
              )
        ]
        | inr stops ↦ ([], false, rw stops refl, omega (arith, few))
      ]

  ending :
      (fuel : ℕ) (r : Option (ℕ × ℕ))
      → find_smbios lib ≡ r
      → ((address maximum : ℕ)
          → r ≡ some (address, maximum)
          → (maximum < 2 ^ 62) × (maximum < fuel))
      → (lines : List Line) × (status : Status) × (print_system_info lib fuel
          ≡ some (lines, status))
        × (length lines ≤ 5)
  unfolding print_system_info
  ending fuel none found enough = (
    version (lib.revision / 2 ^ 16) (lib.revision % 2 ^ 16) lib.vendor lib.firmware_revision ∷ [],
    not_found,
    rw (print_system_info, found) refl,
    omega arith,
  )
  ending fuel (some (address, maximum)) found enough =
      let first =
        version (lib.revision / 2 ^ 16) (lib.revision % 2 ^ 16) lib.vendor lib.firmware_revision in
      let bound = enough address maximum refl in
      let (lines, aborted, ended, count) =
        structures_loop_ends fuel maximum address 0 0 bound.0 (omega arith) (omega (arith, bound.1))
          (omega arith) in
      let last = status_line (secure_boot_status lib.secure_boot lib.setup_mode) in
      elim (Bool-cases aborted) [
        | inl abort ↦ (
          first ∷ lines,
          other_error 21,
          rw (print_system_info, found, ended, abort) refl,
          omega (arith, count),
        )
        | inr whole ↦ (
          first ∷ (lines ++ (last ∷ [])),
          success,
          rw (print_system_info, found, ended, whole) refl,
          omega (arith, count, length-append {A = Line} lines (last ∷ [])),
        )
      ]

  -- PrintSystemInfo ends: where the structures lie one behind the other, with fuel for each byte of the tables'
  -- size it returns, and has printed at most five lines.
  pub print_system_info_ends :
      (fuel : ℕ)
      → ((address maximum : ℕ)
          → find_smbios lib ≡ some (address, maximum)
          → (maximum < 2 ^ 62) × (maximum < fuel))
      → (lines : List Line) × (status : Status) × (print_system_info lib fuel
          ≡ some (lines, status))
        × (length lines ≤ 5)
  print_system_info_ends fuel enough = ending fuel (find_smbios lib) refl enough

-- What the firmware and its library do for GetVolume and GetFileSize: the answer of HandleProtocol, the device
-- of a loaded image, its root, the information about a file, the size there, and FreePool.
pub record Files {ℓ} (World : Type ℓ) : Type ℓ where
  pub loaded_image : ℕ → World → World × ℕ
  pub device_of : ℕ → World → ℕ
  pub open_root : ℕ → World → World × ℕ
  pub file_info : ℕ → World → World × ℕ
  pub size_of : ℕ → World → ℕ
  pub free_pool : ℕ → World → World

unfoldable pub get_volume {ℓ} : {World : Type ℓ} → Files World → ℕ → World → World × ℕ
get_volume files image w =
    let (w1, loaded) = files.loaded_image image w in files.open_root (files.device_of loaded w1) w1

unfoldable pub get_file_size {ℓ} : {World : Type ℓ} → Files World → ℕ → World → World × ℕ
get_file_size files file w =
    let (w1, info) = files.file_info file w in (files.free_pool info w1, files.size_of info w1)
