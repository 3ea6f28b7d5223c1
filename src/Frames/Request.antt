-- ===== src/Frames/Request.antt =====
-- ppa_request: first fit from the word of the last hit.
use si_stultum.Base.{ℕ, zero, suc, ◌+◌, ◌-◌, ◌*◌, ◌/◌, ◌%◌, ◌^◌, ◌≤◌, ◌<◌}
use si_stultum.Base.{Bool, true, false, ◌≡◌, ◌≢◌, refl, ap, arith, inl, inr}
use si_stultum.Base.{none, some}
use si_stultum.Base.{◌==◌, Bool-cases, u64, add64, sub64}
use si_stultum.Bits.{bit, bit-complement, bit_zero}
use si_stultum.Frames.{Frames, bitmap_get, put_word, word, lck, find_lo, find_hi, request}
use si_stultum.Frames.Bitmap.{
  IsBitmap, bitmap_get-digit, digit, bitmap_get_beyond, bitmap_set-set_word,
}
use si_stultum.Frames.Lock.{IsMarking, lck-IsMarking, lck_beyond}

-- Every frame from `lo` up to and without `hi` is taken.
abbrev pub AllTaken : Frames → ℕ → ℕ → Type 0
AllTaken f lo hi = (j : ℕ) → lo ≤ j → j < hi → bitmap_get f j ≡ true

bit-ones : (k : ℕ) → k < 32 → bit (2 ^ 32 - 1) k ≡ 1
bit-ones k h = omega (arith, bit-complement 32 0 k (omega arith) h, bit_zero k)

-- A word with a clear digit is not all ones.
not_full : (f : Frames) (i : ℕ) → digit f i ≡ 0 → word f (i / 32) ≢ 2 ^ 32 - 1
not_full f i clear full =
    omega (arith, bit-ones (i % 32) (omega arith), ap (λ w. bit w (i % 32)) full)

free-not_full :
    (f : Frames) (i : ℕ) → i ≤ f.max_index → bitmap_get f i ≡ false → word f (i / 32) ≢ 2 ^ 32 - 1
free-not_full f i within free full = ground (
  arith,
  bitmap_get-digit f i within,
  bit-ones (i % 32) (omega arith),
  ap (λ w. bit w (i % 32)) full,
)

module _ (f : Frames) where
  find_lo-none :
      (hi lo left : ℕ)
      → AllTaken f (hi * 32 + lo) (hi * 32 + lo + left)
      → find_lo f hi lo left ≡ none
  unfolding find_lo
  find_lo-none hi lo zero taken = refl
  find_lo-none hi lo (suc left) taken =
      rw (taken (hi * 32 + lo) (omega arith) (omega arith))
        (find_lo-none hi (lo + 1) left λ j p q. taken j (omega arith) (omega arith))

  find_lo-first :
      (hi lo left i : ℕ)
      → hi * 32 + lo ≤ i
      → i < hi * 32 + lo + left
      → bitmap_get f i ≡ false
      → AllTaken f (hi * 32 + lo) i
      → find_lo f hi lo left ≡ some i
  unfolding find_lo
  find_lo-first hi lo zero i p q free taken = absurd (omega arith)
  find_lo-first hi lo (suc left) i p q free taken = elim (Bool-cases (i == hi * 32 + lo)) [
    | inl here ↦ let e : hi * 32 + lo ≡ i = ground arith in rw e (rw free)
    | inr later ↦ rw (taken (hi * 32 + lo) (omega arith) (ground arith)) (
        find_lo-first hi (lo + 1) left i (ground arith) (omega arith) free
          λ j r s. taken j (omega arith) s)
  ]

  find_hi-first :
      (hi left i : ℕ)
      → hi * 32 ≤ i
      → i / 32 < hi + left
      → bitmap_get f i ≡ false
      → word f (i / 32) ≢ 2 ^ 32 - 1
      → AllTaken f (hi * 32) i
      → find_hi f hi left ≡ some i
  unfolding find_hi
  find_hi-first hi zero i p q free gap taken = absurd (omega arith)
  find_hi-first hi (suc left) i p q free gap taken = elim (Bool-cases (i / 32 == hi)) [
    | inl here ↦
        let e : i / 32 ≡ hi = ground arith in
        let found : find_lo f hi 0 32 ≡ some i =
          find_lo-first hi 0 32 i (omega arith) (omega arith) free
            λ j r s. taken j (omega arith) s in
        ground (arith, found, rw e at gap)
    | inr later ↦
        let none_here : find_lo f hi 0 32 ≡ none =
          find_lo-none hi 0 32 λ j r s. taken j (omega arith) (ground arith) in
        let rest : find_hi f (hi + 1) left ≡ some i =
          find_hi-first (hi + 1) left i (ground arith) (omega arith) free gap
            λ j r s. taken j (omega arith) s in
        ground (arith, none_here, rest)
  ]

-- The frame where the search starts: the first one of the word of the last hit.
abbrev pub start : Frames → ℕ
start f = f.last_hit / 32 * 32

abbrev pub hit_at : Frames → ℕ → Frames
hit_at f i = record f { last_hit = i }

request-first :
    (f : Frames) (i : ℕ)
    → IsBitmap f
    → start f ≤ i
    → i ≤ f.max_index + 1
    → i * 4096 < 2 ^ 64
    → bitmap_get f i ≡ false
    → word f (i / 32) ≢ 2 ^ 32 - 1
    → AllTaken f (start f) i
    → request f ≡ (lck (hit_at f i) (i * 4096), i * 4096)
unfolding request
request-first f i valid from within fits free gap taken =
    let found : find_hi f (f.last_hit / 32) (f.size - f.last_hit / 32) ≡ some i =
      find_hi-first f (f.last_hit / 32) (f.size - f.last_hit / 32) i from
        (omega (arith, valid.size_lem)) free gap taken in
    let whole : u64 (i * 4096) ≡ i * 4096 = omega arith in rw (found, request) (rw whole)

-- What a successful request promises: the address of frame i, which was free and lies in the
-- bitmap; the frame is now taken, no other frame changes, and the counters change with it.
pub record IsGrant (f : Frames) (i : ℕ) (out : Frames × ℕ) : Type 0 where
  pub address : out.1 ≡ i * 4096
  pub was_free : bitmap_get f i ≡ false
  pub hit : out.0.last_hit ≡ i
  pub marking : IsMarking f i true out.0

hit_at-IsMarking :
    {f g : Frames} {i j : ℕ} {b : Bool} → IsMarking (hit_at f j) i b g → IsMarking f i b g
unfolding bitmap_get
hit_at-IsMarking m = record {
  marked = m.marked;
  valid = m.valid;
  held = m.held;
  kept = m.kept;
  same_total = m.same_total;
  same_max = m.same_max;
  same_defined = m.same_defined;
  same_place = m.same_place;
  same_size = m.same_size;
  confined = m.confined;
}

lck-last_hit :
    (f : Frames) (addr : ℕ)
    → IsBitmap f
    → addr / 4096 ≤ f.max_index
    → (lck f addr).last_hit ≡ f.last_hit
unfolding lck put_word
lck-last_hit f addr valid within = elim (Bool-cases (bitmap_get f (addr / 4096))) [
  | inl was ↦ rw was
  | inr free ↦ rw (free, bitmap_set-set_word f (addr / 4096) true within)
]

-- If frame i is the first free one of the bitmap at or behind the start of the search, and its
-- address is below 2 ^ 64, then ppa_request returns that address, takes the frame and no other one,
-- and the byte counters change by a page as the number of taken frames does.
pub request-IsGrant :
    (f : Frames) (i : ℕ)
    → IsBitmap f
    → start f ≤ i
    → i ≤ f.max_index
    → i * 4096 < 2 ^ 64
    → bitmap_get f i ≡ false
    → AllTaken f (start f) i
    → IsGrant f i (request f)
unfolding bitmap_get
request-IsGrant f i valid from within fits free taken =
    rw (request-first f i valid from (omega arith) fits free (free-not_full f i within free) taken)
      (record {
        address = refl;
        was_free = free;
        hit = lck-last_hit (hit_at f i) (i * 4096) at_hit (omega arith);
        marking =
            hit_at-IsMarking
              (rw here at (lck-IsMarking (hit_at f i) (i * 4096) at_hit (omega arith)));
      })
  where
    at_hit : IsBitmap (hit_at f i)
    at_hit = record { size_lem = valid.size_lem; bytes = valid.bytes }

    here : i * 4096 / 4096 ≡ i
    here = omega arith

-- If every frame of the bitmap from the start of the search on is taken and the digit behind the last
-- frame's is clear, then ppa_request does not return 0: it returns the address of the frame behind the last one, takes no frame, and moves a
-- page from the free bytes to the used ones.
pub request_exhausted :
    (f : Frames)
    → IsBitmap f
    → start f ≤ f.max_index + 1
    → (f.max_index + 1) * 4096 < 2 ^ 64
    → digit f (f.max_index + 1) ≡ 0
    → AllTaken f (start f) (f.max_index + 1)
    → request f ≡ (
      record f {
        mem_used = add64 f.mem_used 4096;
        mem_free = sub64 f.mem_free 4096;
        last_hit = f.max_index + 1;
      },
      (f.max_index + 1) * 4096,
    )
request_exhausted f valid from fits clear taken =
    let i = f.max_index + 1 in
    rw (
      request-first f i valid from (omega arith) fits (bitmap_get_beyond f i (omega arith))
          (not_full f i clear) taken,
      lck_beyond (hit_at f i) (i * 4096) (omega arith),
    )
