-- ===== src/Boot/Segment.antt =====
-- GetKernelEntry of src/bootloader.c: one segment of the kernel in memory.
use si_stultum.Base.{ℕ, ◌+◌, ◌*◌, ◌≤◌, ◌<◌, true, false, ◌≡◌, ◌≢◌, refl, ap, arith, ◌∙◌}
use si_stultum.Base.{inl, inr, ◌⊎◌, ◌==◌, Bool-cases}
use si_stultum.Boot.{Firmware, ProgramHeader, segment_pages, load_segment}

-- What the boot loader relies on in the firmware's file and page services: reading n bytes puts the
-- file's bytes from the position on at the address, where the file is long enough, and changes no other
-- byte; pages are granted where they are asked for, and no byte outside them changes.
pub record IsFileService {ℓ} {World : Type ℓ} (fw : Firmware World) (position : World → ℕ)
    (file : ℕ → ℕ) (size : ℕ) : Type ℓ where
  pub read_inside :
      (n a k : ℕ) (w : World)
      → position w + n ≤ size
      → k < n
      → fw.memory (fw.read n a w) (a + k) ≡ file (position w + k)
  pub read_outside :
      (n a b : ℕ) (w : World) → (b < a) ⊎ (a + n ≤ b) → fw.memory (fw.read n a w) b ≡ fw.memory w b
  pub positioned : (p : ℕ) (w : World) → position (fw.set_position p w) ≡ p
  pub same_memory : (p b : ℕ) (w : World) → fw.memory (fw.set_position p w) b ≡ fw.memory w b
  pub pages_granted : (a n : ℕ) (w : World) → (fw.allocate_pages a n w).1 ≡ a
  pub pages_outside :
      (a n b : ℕ) (w : World)
      → (b < a) ⊎ (a + 4096 * n ≤ b)
      → fw.memory (fw.allocate_pages a n w).0 b ≡ fw.memory w b

-- Address b lies outside the pages of a segment.
abbrev pub Off : ProgramHeader → ℕ → Type 0
Off p b = (b < p.p_paddr) ⊎ (p.p_paddr + 4096 * segment_pages p ≤ b)

-- What an executable promises of a segment: its bytes lie within the file, and fit its pages.
pub record IsSegment (size : ℕ) (p : ProgramHeader) : Type 0 where
  pub in_file : p.p_offset + p.p_filesz ≤ size
  pub in_pages : p.p_filesz ≤ 4096 * segment_pages p

module _ {ℓ} {World : Type ℓ} (fw : Firmware World) (position : World → ℕ) (file : ℕ → ℕ) (size : ℕ)
    (service : IsFileService fw position file size) where
  abbrev paged : ProgramHeader → World → World
  paged p w = (fw.allocate_pages p.p_paddr (segment_pages p) w).0

  load_segment-loads :
      (p : ProgramHeader) (w : World)
      → p.p_type ≡ 1
      → load_segment fw p w ≡ fw.read p.p_filesz p.p_paddr (fw.set_position p.p_offset (paged p w))
  unfolding load_segment
  load_segment-loads p w loads =
      let is_load : (p.p_type == 1) ≡ true = ground arith in
      rw (is_load, service.pages_granted p.p_paddr (segment_pages p) w) refl

  load_segment-skips : (p : ProgramHeader) (w : World) → p.p_type ≢ 1 → load_segment fw p w ≡ w
  unfolding load_segment
  load_segment-skips p w skips = let other : (p.p_type == 1) ≡ false = ground arith in rw other refl

  pub load_segment-outside :
      (p : ProgramHeader) (w : World) (b : ℕ)
      → (p.p_type ≡ 1 → IsSegment size p × Off p b)
      → fw.memory (load_segment fw p w) b ≡ fw.memory w b
  load_segment-outside p w b valid = elim (Bool-cases (p.p_type == 1)) [
    | inl loaded ↦
        let loads : p.p_type ≡ 1 = ground arith in
        let (segment, off) = valid loads in
        ap (λ v. fw.memory v b) (load_segment-loads p w loads)
        ∙ service.read_outside p.p_filesz p.p_paddr b (fw.set_position p.p_offset (paged p w))
            (omega (arith, off, segment.in_pages))
        ∙ service.same_memory p.p_offset b (paged p w)
        ∙ service.pages_outside p.p_paddr (segment_pages p) b w off
    | inr other ↦ ap (λ v. fw.memory v b) (load_segment-skips p w (ground arith))
  ]

  pub load_segment-inside :
      (p : ProgramHeader) (w : World) (k : ℕ)
      → p.p_type ≡ 1
      → IsSegment size p
      → k < p.p_filesz
      → fw.memory (load_segment fw p w) (p.p_paddr + k) ≡ file (p.p_offset + k)
  load_segment-inside p w k loads valid h =
      let w' = fw.set_position p.p_offset (paged p w) in
      let at = service.positioned p.p_offset (paged p w) in
      ap (λ v. fw.memory v (p.p_paddr + k)) (load_segment-loads p w loads)
      ∙ service.read_inside p.p_filesz p.p_paddr k w' (omega (arith, at, valid.in_file)) h
      ∙ ap (λ x. file (x + k)) at
