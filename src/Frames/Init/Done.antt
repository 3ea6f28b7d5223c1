-- ===== src/Frames/Init/Done.antt =====
-- ppa_init as a whole.
use si_stultum.Base.{ap}
use si_stultum.Base.{
  ℕ, zero, suc, ◌+◌, ◌*◌, ◌/◌, ◌^◌, ◌≤◌, ◌<◌, Bool, true, false, ◌==◌, if◌then◌else◌,
}
use si_stultum.Base.{◌≡◌, ◌≢◌, refl, sym, arith, ◌∙◌}
use mathlib.Core.Path.{subst}
use si_stultum.Memory.{Memory, IsBytes}
use si_stultum.Frames.{Frames, bitmap_get, rsvn, lckn}
use si_stultum.Frames.Range.{IsRun, rsvn-IsRun, lckn-IsRun}
use si_stultum.Frames.Init.{
  get_memory_size, Totals, counted, total_step, total_loop, no_totals, free_loop, fill_bitmap,
  ppa_init_bitmap, ppa_init, rounds, bitmap_pages,
}
use si_stultum.Frames.Init.Clear.{IsEmptyBitmap, ppa_init_bitmap-IsEmptyBitmap}
use si_stultum.Frames.Init.Fill.{
  IsFilled, IsFilling, IsFreed, IsSpared, AllFit, listed, free_loop-IsFreed, empty-IsBalanced,
}
use si_stultum.Frames.Init.Scan.{total_loop-size_loop}
use si_stultum.Frames.Lock.{IsBalanced}
use si_stultum.Frames.Init.Fill.{
  filled_place, filled_size, filled_max, filled_total, filled_defined, filled_marked,
  filled-IsBalanced,
}

total_loop-lt :
    (m : Memory) (step desc left : ℕ) (t : Totals)
    → t.mem_total < 2 ^ 64
    → (total_loop m step desc left t).mem_total < 2 ^ 64
unfolding total_loop
total_loop-lt m step desc zero t h = h
total_loop-lt m step desc (suc left) t h =
    total_loop-lt m step (desc + step) left (total_step m desc t)
      (unfold total_step in ground arith)

-- What ppa_init expects of the machine, for a bitmap of `pages` frames at `segment`: memory holds
-- bytes, the map lies outside the bitmap and its conventional memory is within bounds, and the
-- bitmap ends below 2 ^ 64.
pub record IsPlanned (f : Frames) (mmap mmap_size step segment pages : ℕ) : Type 0 where
  pub bytes : IsBytes f.memory
  pub some_page : 0 < pages
  pub fit :
      AllFit
        (record f { size = pages / 32 + 1; data_addr = segment })
        f.memory
        step
        mmap
        (rounds mmap_size step)
  pub ends : segment + 4096 * bitmap_pages (pages / 32 + 1) < 2 ^ 64

module _ {f : Frames} {mmap mmap_size step segment pages : ℕ}
    (plan : IsPlanned f mmap mmap_size step segment pages) (small : 4096 * pages < 2 ^ 64) where
  cleared_lem : IsEmptyBitmap f segment pages (ppa_init_bitmap f segment pages)
  cleared_lem =
      ppa_init_bitmap-IsEmptyBitmap f segment pages plan.bytes plan.some_page (omega arith)

  filling :
      let f1 = ppa_init_bitmap f segment pages in
      let f2 = rsvn f1 0 pages in
      let f3 = free_loop f2 step mmap (rounds mmap_size step) in
      let f4 = rsvn f3 0 0x100 in
      let f5 = lckn f4 f4.data_addr (bitmap_pages f1.size) in
      IsFilling f f.memory mmap mmap_size step segment pages f1 f2 f3 f4 f5
  filling = record {
    cleared = cleared_lem;
    reserved = reserved;
    freed = freed;
    low = low;
    locked = lckn-IsRun _ _ _ low.valid (rw place (rw cleared_lem.size_lem plan.ends));
  }
    where
      reserved :
          IsRun
            (ppa_init_bitmap f segment pages)
            0
            pages
            true
            (rsvn (ppa_init_bitmap f segment pages) 0 pages)
      reserved =
          rsvn-IsRun (ppa_init_bitmap f segment pages) 0 pages cleared_lem.valid (omega arith)

      spared :
          IsSpared
            (record f { size = pages / 32 + 1; data_addr = segment })
            f.memory
            (rsvn (ppa_init_bitmap f segment pages) 0 pages)
      spared = record {
        place = reserved.same_place ∙ cleared_lem.place;
        size = reserved.same_size ∙ cleared_lem.size_lem;
        memory = λ a out.
            reserved.confined a (omega (arith, cleared_lem.place, cleared_lem.size_lem))
            ∙ cleared_lem.confined a (omega (arith, cleared_lem.place, cleared_lem.size_lem));
      }

      freed :
          IsFreed
            (rsvn (ppa_init_bitmap f segment pages) 0 pages)
            (listed f.memory step mmap (rounds mmap_size step))
            (free_loop
              (rsvn (ppa_init_bitmap f segment pages) 0 pages)
              step
              mmap
              (rounds mmap_size step))
      freed = free_loop-IsFreed step mmap (rounds mmap_size step) _ reserved.valid spared plan.fit

      low :
          IsRun
            (free_loop
              (rsvn (ppa_init_bitmap f segment pages) 0 pages)
              step
              mmap
              (rounds mmap_size step))
            0
            256
            true
            (rsvn
              (free_loop
                (rsvn (ppa_init_bitmap f segment pages) 0 pages)
                step
                mmap
                (rounds mmap_size step))
              0
              0x100)
      low = rsvn-IsRun _ 0 256 freed.valid (omega arith)

      place :
          (rsvn
            (free_loop
              (rsvn (ppa_init_bitmap f segment pages) 0 pages)
              step
              mmap
              (rounds mmap_size step))
            0
            0x100).data_addr
          ≡ segment
      place = low.same_place ∙ freed.same_place ∙ reserved.same_place ∙ cleared_lem.place

module _ {f : Frames} {segment : ℕ} (mmap mmap_size step : ℕ)
    (plan : IsPlanned f mmap mmap_size step segment (f.mem_total / 4096))
    (small : f.mem_total < 2 ^ 64) where
  steps :
      let f1 = ppa_init_bitmap f segment (f.mem_total / 4096) in
      let f2 = rsvn f1 0 (f.mem_total / 4096) in
      let f3 = free_loop f2 step mmap (rounds mmap_size step) in
      let f4 = rsvn f3 0 0x100 in
      let f5 = lckn f4 f4.data_addr (bitmap_pages f1.size) in
      IsFilling f f.memory mmap mmap_size step segment (f.mem_total / 4096) f1 f2 f3 f4 f5
  steps = filling plan (omega arith)

  fill_bitmap-IsFilled :
      IsFilled f.memory mmap mmap_size step segment
        (f.mem_total / 4096)
        (fill_bitmap f segment mmap mmap_size step)
  unfolding fill_bitmap bitmap_get
  fill_bitmap-IsFilled = record {
    marked = filled_marked steps;
    valid = let v = steps.locked.valid in record { size_lem = v.size_lem; bytes = v.bytes };
    place = filled_place steps;
    max_lem = omega (arith, filled_max steps);
    total_lem = omega (arith, filled_total steps);
    ready = refl;
  }

  fill_bitmap-IsBalanced :
      f.mem_used ≡ 0
      → f.mem_rsvd ≡ 0
      → f.mem_free ≡ f.mem_total
      → 256 ≤ f.mem_total / 4096
      → segment / 4096 + bitmap_pages (f.mem_total / 4096 / 32 + 1) ≤ f.mem_total / 4096
      → IsBalanced (fill_bitmap f segment mmap mmap_size step)
  unfolding fill_bitmap bitmap_get
  fill_bitmap-IsBalanced used rsvd free l b =
      let k = filled-IsBalanced steps (empty-IsBalanced used rsvd free steps.cleared) l (
        subst (λ x. segment / 4096 + bitmap_pages x ≤ f.mem_total / 4096)
          (sym (filled_size steps ∙ steps.cleared.size_lem)) b) in
      record { held = k.held; total = k.total }

-- The variables of the first loop of ppa_init when it ends.
abbrev pub totals : Frames → ℕ → ℕ → ℕ → Totals
totals f mmap mmap_size step = total_loop f.memory step mmap (rounds mmap_size step) no_totals

last_branch :
    (a b : Bool) (x y z : Frames)
    → a ≡ false
    → b ≡ false
    → (if a then x else if b then y else z) ≡ z
last_branch false false x y z p q = refl
last_branch false true x y z p q = cc
last_branch true b x y z p q = cc

module _ (f : Frames) (mmap mmap_size step : ℕ) (first : f.ppa_initialized ≡ false)
    (some_segment : (totals f mmap mmap_size step).largest_segment ≢ 0)
    (plan : IsPlanned
      (counted f (totals f mmap mmap_size step))
      mmap
      mmap_size
      step
      (totals f mmap mmap_size step).largest_segment
      ((totals f mmap mmap_size step).mem_total / 4096)) where
  ppa_init-fill_bitmap :
      let t = totals f mmap mmap_size step in
      ppa_init f mmap mmap_size step
      ≡ fill_bitmap (counted f t) t.largest_segment mmap mmap_size step
  unfolding ppa_init
  ppa_init-fill_bitmap =
      let t = totals f mmap mmap_size step in
      let found : (t.largest_segment == 0) ≡ false = ground arith in
      last_branch _ _ f (counted f t) _ first found

  small_total : (totals f mmap mmap_size step).mem_total < 2 ^ 64
  small_total = total_loop-lt f.memory step mmap (rounds mmap_size step) no_totals (omega arith)

  -- On a machine that meets `IsPlanned`, and where the map has a conventional segment that does not
  -- begin at 0, ppa_init leaves the bitmap as `IsFilled` says.
  pub ppa_init-IsFilled :
      let t = totals f mmap mmap_size step in
      IsFilled f.memory mmap mmap_size step t.largest_segment
        (t.mem_total / 4096)
        (ppa_init f mmap mmap_size step)
  ppa_init-IsFilled =
      let t = totals f mmap mmap_size step in
      subst (IsFilled f.memory mmap mmap_size step t.largest_segment (t.mem_total / 4096))
        (sym ppa_init-fill_bitmap) (fill_bitmap-IsFilled mmap mmap_size step plan small_total)

  -- Where memory is less than 2 ^ 48 bytes, no int overflows in ppa_init.
  pub ppa_init_defined :
      (totals f mmap mmap_size step).mem_total < 2 ^ 48
      → (ppa_init f mmap mmap_size step).defined ≡ f.defined
  unfolding fill_bitmap
  ppa_init_defined few =
      let t = totals f mmap mmap_size step in
      ap Frames.defined ppa_init-fill_bitmap
      ∙ filled_defined (steps mmap mmap_size step plan small_total) (omega (arith, few))

  -- On a machine that meets `IsPlanned`, where the map has a conventional segment that does not
  -- begin at 0, there are 256 frames at least and the bitmap ends within the frames, the byte
  -- counters agree with the bitmap when ppa_init is done.
  pub ppa_init-IsBalanced :
      256 ≤ (totals f mmap mmap_size step).mem_total / 4096
      → (totals f mmap mmap_size step).largest_segment / 4096
          + bitmap_pages ((totals f mmap mmap_size step).mem_total / 4096 / 32 + 1)
        ≤ (totals f mmap mmap_size step).mem_total / 4096
      → IsBalanced (ppa_init f mmap mmap_size step)
  ppa_init-IsBalanced many within =
      subst IsBalanced (sym ppa_init-fill_bitmap)
        (fill_bitmap-IsBalanced mmap mmap_size step plan small_total refl refl refl many within)

-- Where the map has no conventional segment that begins behind 0, ppa_init leaves the allocator
-- uninitialised and memory and bitmap alone; the total is what get_memory_size reports, and all of
-- it counts as free.
pub ppa_init_no_segment :
    (f : Frames) (mmap mmap_size step : ℕ)
    → f.ppa_initialized ≡ false
    → (totals f mmap mmap_size step).largest_segment ≡ 0
    → let g = ppa_init f mmap mmap_size step in
      (g.ppa_initialized ≡ false)
      × (g.memory ≡ f.memory)
      × ((j : ℕ) → bitmap_get g j ≡ bitmap_get f j)
      × (g.mem_total ≡ get_memory_size f.memory mmap mmap_size step)
      × (g.mem_free ≡ g.mem_total)
unfolding ppa_init get_memory_size
ppa_init_no_segment f mmap mmap_size step h e =
    rw (h, e)
      (
        refl,
        refl,
        λ j. unfold bitmap_get in refl,
        total_loop-size_loop f.memory step mmap (rounds mmap_size step) no_totals,
        refl,
      )
