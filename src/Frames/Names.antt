-- ===== src/Frames/Names.antt =====
-- The types of memory in a memory map: the enum EFI_MEMORY_TYPE of src/page_frames.c, and the table of their
-- names in src/efimem.c.
use si_stultum.Base.{chars, ℕ, zero, suc, ◌<◌, Option, none, some, List, [], ◌∷◌, ◌≡◌, refl, arith}

-- EFI_MEMORY_TYPE.
pub data MemoryType : Type 0 where
  reserved_memory_type loader_code loader_data boot_services_code : MemoryType
  boot_services_data runtime_services_code runtime_services_data conventional_memory_type :
      MemoryType
  unusable_memory acpi_reclaim_memory acpi_memory_nvs memory_mapped_io : MemoryType
  memory_mapped_io_port_space pal_code persistent_memory max_memory_type : MemoryType

-- The type_number of an enum constant.
unfoldable pub type_number : MemoryType → ℕ
type_number reserved_memory_type = 0
type_number loader_code = 1
type_number loader_data = 2
type_number boot_services_code = 3
type_number boot_services_data = 4
type_number runtime_services_code = 5
type_number runtime_services_data = 6
type_number conventional_memory_type = 7
type_number unusable_memory = 8
type_number acpi_reclaim_memory = 9
type_number acpi_memory_nvs = 10
type_number memory_mapped_io = 11
type_number memory_mapped_io_port_space = 12
type_number pal_code = 13
type_number persistent_memory = 14
type_number max_memory_type = 15

-- The constant's name in the source.
unfoldable pub type_name : MemoryType → List ℕ
type_name reserved_memory_type = chars "EfiReservedMemoryType"
type_name loader_code = chars "EfiLoaderCode"
type_name loader_data = chars "EfiLoaderData"
type_name boot_services_code = chars "EfiBootServicesCode"
type_name boot_services_data = chars "EfiBootServicesData"
type_name runtime_services_code = chars "EfiRuntimeServicesCode"
type_name runtime_services_data = chars "EfiRuntimeServicesData"
type_name conventional_memory_type = chars "EfiConventionalMemory"
type_name unusable_memory = chars "EfiUnusableMemory"
type_name acpi_reclaim_memory = chars "EfiACPIReclaimMemory"
type_name acpi_memory_nvs = chars "EfiACPIMemoryNVS"
type_name memory_mapped_io = chars "EfiMemoryMappedIO"
type_name memory_mapped_io_port_space = chars "EfiMemoryMappedIOPortSpace"
type_name pal_code = chars "EfiPalCode"
type_name persistent_memory = chars "EfiPersistentMemory"
type_name max_memory_type = chars "EfiMaxMemoryType"

-- EFI_MEMORY_TYPE_STRINGS.
abbrev pub memory_type_strings : List (List ℕ)
memory_type_strings =
    chars "EfiReservedMemoryType"
    ∷ (chars "EfiLoaderCode"
        ∷ (chars "EfiLoaderData"
            ∷ (chars "EfiBootServicesCode"
                ∷ (chars "EfiBootServicesData"
                    ∷ (chars "EfiRuntimeServicesCode"
                        ∷ (chars "EfiRuntimeServicesData"
                            ∷ (chars "EfiConventionalMemory"
                                ∷ (chars "EfiUnusableMemory"
                                    ∷ (chars "EfiACPIReclaimMemory"
                                        ∷ (chars "EfiACPIMemoryNVS"
                                            ∷ (chars "EfiMemoryMappedIO"
                                                ∷ (chars "EfiMemoryMappedIOPortSpace"
                                                    ∷ (chars "EfiPalCode"
                                                        ∷ (chars "EfiMaxMemoryType"
                                                            ∷ []))))))))))))))

-- EFI_MEMORY_TYPE_STRINGS[i]; `none` is a read behind the table.
unfoldable pub type_string : ℕ → List (List ℕ) → Option (List ℕ)
type_string i [] = none
type_string zero (s ∷ rest) = some s
type_string (suc i) (s ∷ rest) = type_string i rest

-- The table has the constant's name for every type but the last two.
pub type_string-type_number :
    (t : MemoryType)
    → type_number t < 14
    → type_string (type_number t) memory_type_strings ≡ some (type_name t)
unfolding type_string type_number type_name
type_string-type_number reserved_memory_type small = refl
type_string-type_number loader_code small = refl
type_string-type_number loader_data small = refl
type_string-type_number boot_services_code small = refl
type_string-type_number boot_services_data small = refl
type_string-type_number runtime_services_code small = refl
type_string-type_number runtime_services_data small = refl
type_string-type_number conventional_memory_type small = refl
type_string-type_number unusable_memory small = refl
type_string-type_number acpi_reclaim_memory small = refl
type_string-type_number acpi_memory_nvs small = refl
type_string-type_number memory_mapped_io small = refl
type_string-type_number memory_mapped_io_port_space small = refl
type_string-type_number pal_code small = refl
type_string-type_number persistent_memory small = absurd (omega arith)
type_string-type_number max_memory_type small = absurd (omega arith)

-- At the type_number of EfiPersistentMemory stands the name of EfiMaxMemoryType, which has none at its own.
type_string_last :
    (type_string (type_number persistent_memory) memory_type_strings
      ≡ some (type_name max_memory_type))
    × (type_string (type_number max_memory_type) memory_type_strings ≡ none)
unfolding type_string type_number type_name
type_string_last = (refl, refl)
