-- ===== src/Frames/Init/Scan.antt =====
-- The first loop of ppa_init: the total and the largest segment.
use si_stultum.Base.{ℕ, zero, suc, ◌+◌, ◌-◌, ◌*◌, ◌≤◌, ◌<◌, Bool, true, false, ◌&&◌}
use si_stultum.Base.{◌==◌, ltb, add64, Bool-cases, ◌≡◌, refl, arith, ◌↔◌, ◌⊎◌, inl, inr}
use native.Mathlib.Nat.{div-add-mod, add-zero}
use si_stultum.Base.{◌∙◌, ap}
use si_stultum.Memory.{Memory}
use si_stultum.Frames.Init.{Totals, total_step, total_loop, size_loop, get_memory_size, rounds}
use si_stultum.Frames.Init.{desc_size, desc_start, is_conventional, no_totals}

-- Descriptor number i of a map.
abbrev pub nth_desc : ℕ → ℕ → ℕ → ℕ
nth_desc mmap step i = mmap + i * step

-- For a positive descriptor size, the loops over the memory map visit exactly the descriptors that
-- begin inside it.
pub rounds_iff :
    (mmap_size step i : ℕ) → 0 < step → (i < rounds mmap_size step) ↔ (i * step < mmap_size)
unfolding rounds
rounds_iff mmap_size step i pos = (
  λ h. grind (arith, div-add-mod (mmap_size + step - 1) step),
  λ h. grind (arith, div-add-mod (mmap_size + step - 1) step),
)

total_step-mem_total :
    (m : Memory) (desc : ℕ) (t : Totals)
    → (total_step m desc t).mem_total ≡ add64 t.mem_total (desc_size m desc)
unfolding total_step
total_step-mem_total m desc t = ground arith

pub total_loop-size_loop :
    (m : Memory) (step desc left : ℕ) (t : Totals)
    → (total_loop m step desc left t).mem_total ≡ size_loop m step desc left t.mem_total
unfolding total_loop size_loop
total_loop-size_loop m step desc zero t = refl
total_loop-size_loop m step desc (suc left) t =
    total_loop-size_loop m step (desc + step) left (total_step m desc t)
    ∙ ap (size_loop m step (desc + step) left) (total_step-mem_total m desc t)

so_far_below : {a b c : ℕ} → a ≤ b → b < c → a ≤ c
so_far_below h l = omega arith

not_above : (p : Bool) (a b : ℕ) → p ≡ true → (p && ltb a b) ≡ false → b ≤ a
not_above p a b h e = ground arith

module _ (m : Memory) (mmap step : ℕ) where
  abbrev pub NthConventional : ℕ → Type 0
  NthConventional i = is_conventional m (nth_desc mmap step i) ≡ true

  -- `t` describes the largest of the first n descriptors that are conventional, or there is none
  -- with any page.
  pub record IsLargest (n : ℕ) (t : Totals) : Type 0 where
    pub upper :
        (i : ℕ) → i < n → NthConventional i → desc_size m (nth_desc mmap step i) ≤ t.largest_size
    pub found :
        ((t.largest_size ≡ 0) × (t.largest_segment ≡ 0))
        ⊎ ((i : ℕ) × (i < n)
            × NthConventional i
            × (t.largest_segment ≡ desc_start m (nth_desc mmap step i))
            × (t.largest_size ≡ desc_size m (nth_desc mmap step i)))

  total_step-IsLargest :
      (n : ℕ) (t : Totals)
      → IsLargest n t
      → IsLargest (suc n) (total_step m (nth_desc mmap step n) t)
  unfolding total_step
  total_step-IsLargest n t so_far =
      elim (Bool-cases (
        is_conventional m (nth_desc mmap step n)
        && ltb t.largest_size (desc_size m (nth_desc mmap step n)))) [
          | inl bigger ↦ rw bigger (record {
            upper = λ i l c. elim (Bool-cases (i == n)) [
              | inl last ↦ let e : i ≡ n = ground arith in rw e (omega arith)
              | inr before ↦ so_far_below (so_far.upper i (ground arith) c) (ground arith)
            ];
            found = inr (n, omega arith, ground arith, refl, refl);
          })
          | inr not_bigger ↦ rw not_bigger (record {
            upper = λ i l c. elim (Bool-cases (i == n)) [
              | inl last ↦
                  let e : i ≡ n = ground arith in rw e (not_above _ _ _ (rw e at c) not_bigger)
              | inr before ↦ so_far.upper i (ground arith) c
            ];
            found = widen so_far.found;
          })
        ]
    where
      widen :
          {A : Type 0} {P : ℕ → Type 0} {Q R : ℕ → Type 0}
          → A ⊎ ((i : ℕ) × (i < n) × P i × Q i × R i)
          → A ⊎ ((i : ℕ) × (i < suc n) × P i × Q i × R i)
      widen (inl a) = inl a
      widen (inr (i, l, p, q, r)) = inr (i, omega arith, p, q, r)

  total_loop-IsLargest_from :
      (n left : ℕ) (t : Totals)
      → IsLargest n t
      → IsLargest (n + left) (total_loop m step (nth_desc mmap step n) left t)
  unfolding total_loop
  total_loop-IsLargest_from n zero t so_far = rw (add-zero n) so_far
  total_loop-IsLargest_from n (suc left) t so_far =
      let next : nth_desc mmap step n + step ≡ nth_desc mmap step (suc n) = grind arith in
      let shift : n + suc left ≡ suc n + left = omega arith in
      rw (next, shift)
        (total_loop-IsLargest_from (suc n) left (total_step m (nth_desc mmap step n) t)
          (total_step-IsLargest n t so_far))

  -- The first loop of ppa_init computes the size of memory that get_memory_size reports, and
  -- finds a conventional descriptor that no other one exceeds.
  pub total_loop-IsLargest :
      (mmap_size : ℕ)
      → let t = total_loop m step mmap (rounds mmap_size step) no_totals in
        (t.mem_total ≡ get_memory_size m mmap mmap_size step) × IsLargest (rounds mmap_size step) t
  unfolding get_memory_size
  total_loop-IsLargest mmap_size = (
    total_loop-size_loop m step mmap (rounds mmap_size step) no_totals,
    let first : nth_desc mmap step 0 ≡ mmap = omega arith in
        let all : 0 + rounds mmap_size step ≡ rounds mmap_size step = omega arith in
        rw first at
          (rw all at (total_loop-IsLargest_from 0 (rounds mmap_size step) no_totals none_yet)),
  )
    where
      none_yet : IsLargest 0 no_totals
      none_yet = record { upper = λ i l c. elim l [ ]; found = inl (refl, refl) }
