-- ===== src/Kernel/Virtual.antt =====
-- The kernel's test of its memory mapping, in _start of src/kernel.c: a text is copied to a virtual
-- address and read from there. How the processor translates an address is a parameter.
use si_stultum.Base.{chars, ℕ, zero, suc, ◌+◌, ◌%◌, ◌^◌, ◌≡◌, Option, none, some}
use si_stultum.Base.{◌==◌, if◌then◌else◌, List, [], ◌∷◌, ◌++◌, add64}
use si_stultum.Memory.{write}
use si_stultum.PageMap.{Paging, find_paddr, map_memory, with_memory}

-- The physical address of a virtual one.
abbrev pub Mmu : Type 0
Mmu = Paging → ℕ → ℕ

-- The processor walks the tables as pmm_find_paddr does, and keeps the place in the page.
abbrev pub IsMmu : Mmu → Type 0
IsMmu translate = (s : Paging) (v : ℕ) → translate s v ≡ find_paddr s v + v % 2 ^ 12

-- A string ends at its NUL.
unfoldable pub prepend : ℕ → Option (List ℕ) → Option (List ℕ)
prepend b rest = if b == 0 then some [] else elim rest [ none ↦ none | some bs ↦ some (b ∷ bs) ]

module _ (translate : Mmu) where
  unfoldable pub store_byte : Paging → ℕ → ℕ → Paging
  unfolding write
  store_byte s v b = with_memory s (write (translate s v) b s.frames.memory)

  -- ppa_memcpy of constant bytes to a virtual address.
  unfoldable pub copy_in : Paging → ℕ → List ℕ → Paging
  unfolding store_byte
  copy_in s v [] = s
  copy_in s v (b ∷ bs) = copy_in (store_byte s v b) (add64 v 1) bs

  -- The bytes of a string at a virtual address; `none` means that the fuel ran out.
  unfoldable pub load_text : ℕ → Paging → ℕ → Option (List ℕ)
  unfolding prepend
  load_text zero s v = none
  load_text (suc fuel) s v =
      prepend (s.frames.memory (translate s v)) (load_text fuel s (add64 v 1))

abbrev pub vstr_text : List ℕ
vstr_text = chars "DIXITQVE DEVS FIAT LVX ET FACTA EST LVX"

-- The test: the page at 0x600000000 is mapped to the frame at 0x80000, and the text with its NUL is copied
-- there.
unfoldable pub map_text : Mmu → Paging → Paging
map_text translate s =
    copy_in translate (map_memory s 0x600000000 0x80000) 0x600000000 (vstr_text ++ (0 ∷ []))
