-- ===== src/Boot/Segments.antt =====
-- GetKernelEntry of src/bootloader.c: the segments of the kernel in memory.
use si_stultum.Base.{ℕ, zero, suc, ◌+◌, ◌*◌, ◌≤◌, ◌<◌, ◌≡◌, ◌≢◌, refl, sym, arith, ◌∙◌}
use si_stultum.Base.{inl, inr, ◌==◌, Bool-cases}
use mathlib.Core.Path.{subst}
use si_stultum.Memory.{Memory, load_ext}
use si_stultum.Boot.{Firmware, ProgramHeader, program_header, load_segment, load_segments}
use si_stultum.Boot.Segment.{
  IsFileService, Off, IsSegment, load_segment-outside, load_segment-inside,
}

-- The loadable headers i to i + left - 1 of a table at `base` in memory m: their bytes lie within the
-- file and fit their pages, and the pages of each lie apart from the table and from those of the others.
pub record IsLoadable (m : Memory) (base size i left : ℕ) : Type 0 where
  pub segment :
      (j : ℕ)
      → i ≤ j
      → j < i + left
      → (program_header m base j).p_type ≡ 1
      → IsSegment size (program_header m base j)
  pub off_table :
      (j b : ℕ)
      → i ≤ j
      → j < i + left
      → (program_header m base j).p_type ≡ 1
      → base + 56 * i ≤ b
      → b < base + 56 * (i + left)
      → Off (program_header m base j) b
  pub off_others :
      (j k b : ℕ)
      → i ≤ j
      → j < k
      → k < i + left
      → (program_header m base j).p_type ≡ 1
      → (program_header m base k).p_type ≡ 1
      → b < (program_header m base j).p_filesz
      → Off (program_header m base k) ((program_header m base j).p_paddr + b)

-- What the loop promises of the memory that it leaves: each loadable segment has the bytes of the file,
-- and what lies outside the pages of all of them is as it was.
pub record IsLoadedFrom (file : ℕ → ℕ) (m : Memory) (base i left : ℕ) (out : Memory) : Type 0 where
  pub inside :
      (j k : ℕ)
      → i ≤ j
      → j < i + left
      → (program_header m base j).p_type ≡ 1
      → k < (program_header m base j).p_filesz
      → out ((program_header m base j).p_paddr + k) ≡ file ((program_header m base j).p_offset + k)
  pub outside :
      (b : ℕ)
      → ((j : ℕ)
          → i ≤ j
          → j < i + left
          → (program_header m base j).p_type ≡ 1
          → Off (program_header m base j) b)
      → out b ≡ m b

-- Headers in bytes that agree are the same.
same_header :
    (m n : Memory) (base i : ℕ)
    → ((b : ℕ) → base + 56 * i ≤ b → b < base + 56 * i + 56 → m b ≡ n b)
    → program_header m base i ≡ program_header n base i
same_header m n base i same =
    let a = base + 56 * i in
    rw
      (
        load_ext 4 a m n (λ b lo hi. same b lo (omega arith)),
        load_ext 8 (a + 8) m n (λ b lo hi. same b (omega arith) (omega arith)),
        load_ext 8 (a + 24) m n (λ b lo hi. same b (omega arith) (omega arith)),
        load_ext 8 (a + 32) m n (λ b lo hi. same b (omega arith) (omega arith)),
        load_ext 8 (a + 40) m n (λ b lo hi. same b (omega arith) (omega arith)),
      )
      refl

-- One round of the loop, and the rounds behind it.
module _ {ℓ} {World : Type ℓ} (fw : Firmware World) (position : World → ℕ) (file : ℕ → ℕ) (size : ℕ)
    (service : IsFileService fw position file size) (base i left : ℕ) (w : World)
    (loadable : IsLoadable (fw.memory w) base size i (suc left)) where
  abbrev this : ProgramHeader
  this = program_header (fw.memory w) base i

  abbrev next : Memory
  next = fw.memory (load_segment fw this w)

  next-outside : (b : ℕ) → (this.p_type ≡ 1 → Off this b) → next b ≡ fw.memory w b
  next-outside b off =
      load_segment-outside fw position file size service this w b
        (λ t. (loadable.segment i (omega arith) (omega arith) t, off t))

  later_header :
      (j : ℕ)
      → i < j
      → j < i + 1 + left
      → program_header (fw.memory w) base j ≡ program_header next base j
  later_header j lo hi = same_header (fw.memory w) next base j (λ b lob hib. sym (
      next-outside b
        (λ t. loadable.off_table i b (omega arith) (omega arith) t (omega arith) (omega arith))))

  rest-IsLoadable : IsLoadable next base size (i + 1) left
  rest-IsLoadable = record {
    segment = λ j lo hi.
        subst (λ p. p.p_type ≡ 1 → IsSegment size p) (later_header j (omega arith) hi)
          (loadable.segment j (omega arith) (omega arith));
    off_table = λ j b lo hi t lob hib.
        subst (λ p. p.p_type ≡ 1 → Off p b) (later_header j (omega arith) hi)
          (λ t. loadable.off_table j b (omega arith) (omega arith) t (omega arith) (omega arith)) t;
    off_others = λ j k b lo between hi.
        subst
          (λ p.
            p.p_type ≡ 1
            → (program_header next base k).p_type ≡ 1
            → b < p.p_filesz
            → Off (program_header next base k) (p.p_paddr + b))
          (later_header j (omega arith) (omega arith))
          (subst
            (λ q.
              (program_header (fw.memory w) base j).p_type ≡ 1
              → q.p_type ≡ 1
              → b < (program_header (fw.memory w) base j).p_filesz
              → Off q ((program_header (fw.memory w) base j).p_paddr + b))
            (later_header k (omega arith) hi)
            (loadable.off_others j k b (omega arith) between (omega arith)));
  }

  module _ (out : Memory) (rest : IsLoadedFrom file next base (i + 1) left out) where
    this_inside :
        (k : ℕ)
        → this.p_type ≡ 1
        → k < this.p_filesz
        → out (this.p_paddr + k) ≡ file (this.p_offset + k)
    this_inside k t h =
        rest.outside (this.p_paddr + k) (λ j lo hi.
          subst (λ p. p.p_type ≡ 1 → Off p (this.p_paddr + k)) (later_header j (omega arith) hi)
            (λ u. loadable.off_others i j k (omega arith) (omega arith) (omega arith) t u h))
        ∙ load_segment-inside fw position file size service this w k t
            (loadable.segment i (omega arith) (omega arith) t) h

    cons-IsLoadedFrom : IsLoadedFrom file (fw.memory w) base i (suc left) out
    cons-IsLoadedFrom = record {
      inside = λ j k lo hi. elim (Bool-cases (i == j)) [
        | inl first ↦
            let e : i ≡ j = ground arith in
            subst
              (λ x.
                (program_header (fw.memory w) base x).p_type ≡ 1
                → k < (program_header (fw.memory w) base x).p_filesz
                → out ((program_header (fw.memory w) base x).p_paddr + k)
                  ≡ file ((program_header (fw.memory w) base x).p_offset + k))
              e (this_inside k)
        | inr later ↦
            let ne : i ≢ j = ground arith in
            subst (λ p. p.p_type ≡ 1 → k < p.p_filesz → out (p.p_paddr + k) ≡ file (p.p_offset + k))
              (sym (later_header j (omega arith) (omega arith)))
              (rest.inside j k (omega arith) (omega arith))
      ];
      outside = λ b off.
          rest.outside b (λ j lo hi.
            subst (λ p. p.p_type ≡ 1 → Off p b) (later_header j (omega arith) hi)
              (off j (omega arith) (omega arith)))
          ∙ next-outside b (off i (omega arith) (omega arith));
    }

module _ {ℓ} {World : Type ℓ} (fw : Firmware World) (position : World → ℕ) (file : ℕ → ℕ) (size : ℕ)
    (service : IsFileService fw position file size) where
  -- Where the program headers are loadable, the loop of GetKernelEntry puts each loadable segment's
  -- bytes of the file at its physical address, and changes no byte outside the segments' pages.
  pub load_segments-IsLoadedFrom :
      (base i left : ℕ) (w : World)
      → IsLoadable (fw.memory w) base size i left
      → IsLoadedFrom file (fw.memory w) base i left (fw.memory (load_segments fw base i left w))
  unfolding load_segments
  load_segments-IsLoadedFrom base i zero w loadable = record {
    inside = λ j k lo hi. absurd (omega arith);
    outside = λ b off. refl;
  }
  load_segments-IsLoadedFrom base i (suc left) w loadable =
      cons-IsLoadedFrom fw position file size service base i left w loadable _ (
        load_segments-IsLoadedFrom base (i + 1) left _
          (rest-IsLoadable fw position file size service base i left w loadable))
