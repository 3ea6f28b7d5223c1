-- ===== src/Frames/Init/Fill.antt =====
-- ppa_init: which frames are free afterwards.
use si_stultum.Base.{ℕ, zero, suc, ◌+◌, ◌*◌, ◌/◌, ◌^◌, ◌≤◌, ◌<◌, Bool, true, false, not, ◌&&◌, ◌||◌}
use si_stultum.Base.{ltb, leb, if◌then◌else◌, Bool-cases, ◌≡◌, refl, arith, inl, inr, ◌∙◌}
use si_stultum.Memory.{Memory, load_ext}
use si_stultum.Frames.{Frames, bitmap_get, ursvn}
use si_stultum.Frames.Bitmap.{IsBitmap, Outside}
use si_stultum.Frames.Lock.{IsBalanced, count_none}
use si_stultum.Frames.Range.{run-IsBalanced, IsRun, ursvn-IsRun}
use si_stultum.Frames.Init.{
  free_loop, is_conventional, desc_start, desc_pages, desc_type, rounds, bitmap_pages,
}
use si_stultum.Frames.Init.Clear.{IsEmptyBitmap}

-- Frame j lies in the conventional memory of the descriptor at `desc`.
abbrev pub covers : Memory → ℕ → ℕ → Bool
covers m desc j =
    is_conventional m desc
    && (leb (desc_start m desc / 4096) j && ltb j (desc_start m desc / 4096 + desc_pages m desc))

-- Frame j lies in the conventional memory of one of `left` descriptors from `desc`.
unfoldable pub listed : Memory → ℕ → ℕ → ℕ → ℕ → Bool
listed m step desc zero j = false
listed m step desc (suc left) j = covers m desc j || listed m step (desc + step) left j

-- The descriptor lies outside the bitmap, and its conventional memory ends below 2 ^ 64 and is at
-- most 2 GiB long.
pub record IsFit (f : Frames) (m : Memory) (desc : ℕ) : Type 0 where
  pub apart : (a : ℕ) → desc ≤ a → a < desc + 32 → Outside f a
  pub ends : desc_start m desc + 4096 * desc_pages m desc < 2 ^ 64
  pub small : desc_pages m desc ≤ 2 ^ 19

abbrev pub AllFit : Frames → Memory → ℕ → ℕ → ℕ → Type 0
AllFit f m step desc zero = Unit
AllFit f m step desc (suc left) = IsFit f m desc × AllFit f m step (desc + step) left

-- `g` has the place of `f` and differs from `m` only inside the bitmap.
pub record IsSpared (f : Frames) (m : Memory) (g : Frames) : Type 0 where
  pub place : g.data_addr ≡ f.data_addr
  pub size : g.size ≡ f.size
  pub memory : (a : ℕ) → Outside f a → g.memory a ≡ m a

module _ {f g : Frames} {m : Memory} (desc : ℕ) (spared : IsSpared f m g)
    (fit : IsFit f m desc) where
  same_type : desc_type g.memory desc ≡ desc_type m desc
  same_type = load_ext 4 desc g.memory m λ b lo hi. spared.memory b (fit.apart b lo (omega arith))

  same_start : desc_start g.memory desc ≡ desc_start m desc
  same_start =
      load_ext 8 (desc + 8) g.memory m
        λ b lo hi. spared.memory b (fit.apart b (omega arith) (omega arith))

  same_pages : desc_pages g.memory desc ≡ desc_pages m desc
  same_pages =
      load_ext 8 (desc + 24) g.memory m
        λ b lo hi. spared.memory b (fit.apart b (omega arith) (omega arith))

-- `h` is `g` with the frames of a test freed.
pub record IsFreed (g : Frames) (test : ℕ → Bool) (h : Frames) : Type 0 where
  pub marked :
      (j : ℕ) → j ≤ g.max_index → bitmap_get h j ≡ (if test j then false else bitmap_get g j)
  pub valid : IsBitmap h
  pub balanced : IsBalanced g → IsBalanced h
  pub same_total : h.mem_total ≡ g.mem_total
  pub same_max : h.max_index ≡ g.max_index
  pub same_defined : h.defined ≡ g.defined
  pub same_place : h.data_addr ≡ g.data_addr
  pub same_size : h.size ≡ g.size
  pub confined : (a : ℕ) → Outside g a → h.memory a ≡ g.memory a

-- One round of the second loop.
abbrev free_step : Frames → ℕ → Frames
free_step g desc =
    if is_conventional g.memory desc
    then ursvn g (desc_start g.memory desc) (desc_pages g.memory desc)
    else g

skipped : (p q x : Bool) → p ≡ false → x ≡ (if p && q then false else x)
skipped p q x h = ground arith

free_step-IsFreed :
    {f g : Frames} {m : Memory} (desc : ℕ)
    → IsBitmap g
    → IsSpared f m g
    → IsFit f m desc
    → IsFreed g (covers m desc) (free_step g desc)
free_step-IsFreed {f} {g} {m} desc valid spared fit =
    rw (same_type desc spared fit, same_start desc spared fit, same_pages desc spared fit)
      (elim (Bool-cases (is_conventional m desc)) [
        | inl free ↦
            let run =
              ursvn-IsRun g (desc_start m desc) (desc_pages m desc) valid fit.ends fit.small in
            rw free (record {
              marked = λ j h. rw free (run.marked j h);
              valid = run.valid;
              balanced = run-IsBalanced refl run;
              same_total = run.same_total;
              same_max = run.same_max;
              same_defined = run.same_defined;
              same_place = run.same_place;
              same_size = run.same_size;
              confined = run.confined;
            })
        | inr other ↦ rw other (record {
          marked = λ j h. skipped _ _ _ other;
          valid = valid;
          balanced = λ h. h;
          same_total = refl;
          same_max = refl;
          same_defined = refl;
          same_place = refl;
          same_size = refl;
          confined = λ a out. refl;
        })
      ])

append-IsFreed :
    {g h k : Frames} (p q : ℕ → Bool)
    → IsFreed g p h
    → IsFreed h q k
    → IsFreed g (λ j. p j || q j) k
append-IsFreed p q first rest = record {
  marked = λ j h. ground (arith, first.marked j, rest.marked j, first.same_max);
  valid = rest.valid;
  balanced = λ h. rest.balanced (first.balanced h);
  same_total = rest.same_total ∙ first.same_total;
  same_max = rest.same_max ∙ first.same_max;
  same_defined = rest.same_defined ∙ first.same_defined;
  same_place = rest.same_place ∙ first.same_place;
  same_size = rest.same_size ∙ first.same_size;
  confined = λ a out.
      rest.confined a (omega (arith, first.same_place, first.same_size)) ∙ first.confined a out;
}

append-IsSpared :
    {f g h : Frames} {m : Memory} (p : ℕ → Bool) → IsSpared f m g → IsFreed g p h → IsSpared f m h
append-IsSpared p spared first = record {
  place = first.same_place ∙ spared.place;
  size = first.same_size ∙ spared.size;
  memory =
      λ a out. first.confined a (omega (arith, spared.place, spared.size)) ∙ spared.memory a out;
}

pub free_loop-IsFreed :
    {f : Frames} {m : Memory} (step desc left : ℕ) (g : Frames)
    → IsBitmap g
    → IsSpared f m g
    → AllFit f m step desc left
    → IsFreed g (listed m step desc left) (free_loop g step desc left)
unfolding free_loop listed
free_loop-IsFreed step desc zero g valid spared fit = record {
  marked = λ j h. refl;
  valid = valid;
  balanced = λ h. h;
  same_total = refl;
  same_max = refl;
  same_defined = refl;
  same_place = refl;
  same_size = refl;
  confined = λ a out. refl;
}
free_loop-IsFreed {f} {m} step desc (suc left) g valid spared fit =
    let first : IsFreed g (covers m desc) (free_step g desc) =
      free_step-IsFreed desc valid spared fit.0 in
    append-IsFreed (covers m desc) (listed m step (desc + step) left) first (
      free_loop-IsFreed step (desc + step) left (free_step g desc) first.valid
        (append-IsSpared (covers m desc) spared first) fit.1)

-- The frames of the bitmap itself.
abbrev pub holds_bitmap : Frames → ℕ → Bool
holds_bitmap g j = leb (g.data_addr / 4096) j && ltb j (g.data_addr / 4096 + bitmap_pages g.size)

-- What ppa_init leaves behind: a frame of the bitmap is taken exactly if no conventional memory of
-- the map holds it, or it is one of the first 256, or the bitmap lies in it. The counters are in
-- balance if the bitmap covers those 256 frames and itself.
pub record IsFilled (m : Memory) (mmap mmap_size step segment pages : ℕ) (g : Frames) : Type 0 where
  pub marked :
      (j : ℕ)
      → j < pages
      → bitmap_get g j
        ≡ (not (listed m step mmap (rounds mmap_size step) j) || ltb j 256 || holds_bitmap g j)
  pub valid : IsBitmap g
  pub place : g.data_addr ≡ segment
  pub max_lem : g.max_index + 1 ≡ pages
  pub total_lem : g.mem_total / 4096 ≡ pages
  pub ready : g.ppa_initialized ≡ true

pub empty-IsBalanced :
    {f g : Frames} {segment pages : ℕ}
    → f.mem_used ≡ 0
    → f.mem_rsvd ≡ 0
    → f.mem_free ≡ f.mem_total
    → IsEmptyBitmap f segment pages g
    → IsBalanced g
empty-IsBalanced {g} used rsvd free empty = record {
  held =
      omega (arith, empty.counters, count_none (bitmap_get g) (suc g.max_index) empty.none_taken);
  total = omega (arith, empty.counters);
}

-- The five states that the rest of ppa_init goes through.
pub record IsFilling (f : Frames) (m : Memory) (mmap mmap_size step segment pages : ℕ)
    (f1 f2 f3 f4 f5 : Frames) : Type 0 where
  pub cleared : IsEmptyBitmap f segment pages f1
  pub reserved : IsRun f1 0 pages true f2
  pub freed : IsFreed f2 (listed m step mmap (rounds mmap_size step)) f3
  pub low : IsRun f3 0 256 true f4
  pub locked : IsRun f4 (f4.data_addr / 4096) (bitmap_pages f1.size) true f5

module _ {f f1 f2 f3 f4 f5 : Frames} {m : Memory} {mmap mmap_size step segment pages : ℕ}
    (steps : IsFilling f m mmap mmap_size step segment pages f1 f2 f3 f4 f5) where
  pub filled_place : f5.data_addr ≡ segment
  filled_place =
      steps.locked.same_place ∙ steps.low.same_place ∙ steps.freed.same_place
      ∙ steps.reserved.same_place ∙ steps.cleared.place

  pub filled_size : f5.size ≡ f1.size
  filled_size =
      steps.locked.same_size ∙ steps.low.same_size ∙ steps.freed.same_size
      ∙ steps.reserved.same_size

  pub filled_max :
      (f1.max_index + 1 ≡ pages)
      × (f2.max_index ≡ f1.max_index)
      × (f3.max_index ≡ f1.max_index)
      × (f4.max_index ≡ f1.max_index)
      × (f5.max_index ≡ f1.max_index)
  filled_max = omega (
    arith, steps.cleared.max_lem, steps.reserved.same_max, steps.freed.same_max, steps.low.same_max,
    steps.locked.same_max,
  )

  pub filled_total : f5.mem_total ≡ f.mem_total
  filled_total =
      steps.locked.same_total ∙ steps.low.same_total ∙ steps.freed.same_total
      ∙ steps.reserved.same_total ∙ steps.cleared.counters.3

  pub filled_defined : pages / 32 + 1 ≤ 2 ^ 31 → f5.defined ≡ f.defined
  filled_defined few =
      steps.locked.same_defined
      ∙ steps.low.same_defined
      ∙ steps.freed.same_defined
      ∙ steps.reserved.same_defined
      ∙ steps.cleared.same_defined few

  pub filled_marked :
      (j : ℕ)
      → j < pages
      → bitmap_get f5 j
        ≡ (not (listed m step mmap (rounds mmap_size step) j) || ltb j 256 || holds_bitmap f5 j)
  filled_marked j h =
      rw (filled_size, steps.locked.same_place)
        (ground (
          arith,
          filled_max,
          steps.cleared.none_taken j,
          steps.reserved.marked j,
          steps.freed.marked j,
          steps.low.marked j,
          steps.locked.marked j,
        ))

  pub filled-IsBalanced :
      IsBalanced f1 → 256 ≤ pages → segment / 4096 + bitmap_pages f5.size ≤ pages → IsBalanced f5
  filled-IsBalanced start low_fits bitmap_fits =
      let fits : segment / 4096 + bitmap_pages f1.size ≤ pages = rw (← filled_size) bitmap_fits in
      run-IsBalanced (omega (arith, fits, filled_place, filled_max, steps.locked.same_place))
        steps.locked
        (run-IsBalanced (omega (arith, filled_max)) steps.low
          (steps.freed.balanced (run-IsBalanced (omega (arith, filled_max)) steps.reserved start)))
