-- ===== src/Frames/Init/Clear.antt =====
-- ppa_init_bitmap: the empty bitmap.
use si_stultum.Base.{◌&&◌, leb, le→leb, ◌≤◌, ◌^◌}
use si_stultum.Frames.Range.{and_true}
use si_stultum.Base.{ℕ, zero, suc, ◌+◌, ◌*◌, ◌/◌, ◌%◌, ◌^◌, ◌≤◌, ◌<◌, false}
use si_stultum.Base.{◌==◌, sub64, Bool-cases, lt-or-ge, ◌≡◌, refl, arith, ◌⊎◌, inl, inr, ◌∙◌, ap}
use si_stultum.Memory.{
  store32, IsBytes, store-IsBytes, load-store_self, load-store_elsewhere, store-outside,
}
use si_stultum.Bits.{bit_zero}
use native.Mathlib.Nat.{add-zero, zero-add}
use si_stultum.Frames.{Frames, word_addr, put_word, word, bitmap_get}
use si_stultum.Frames.Bitmap.{IsBitmap, bitmap_get-digit, bitmap_get_beyond, Outside}
use si_stultum.Frames.Init.{clear_words, ppa_init_bitmap}

-- The first n words of `g` are 0; all else is as in `f`.
record IsCleared (f : Frames) (n : ℕ) (g : Frames) : Type 0 where
  zeros : (k : ℕ) → k < n → word g k ≡ 0
  bytes : IsBytes g.memory
  same : g ≡ record f { memory = g.memory }
  confined : (a : ℕ) → (a < f.data_addr) ⊎ (f.data_addr + 4 * n ≤ a) → g.memory a ≡ f.memory a

clear_words-IsCleared :
    (f g : Frames) (i left : ℕ) → IsCleared f i g → IsCleared f (i + left) (clear_words g i left)
unfolding clear_words put_word
clear_words-IsCleared f g i zero so_far = rw (add-zero i) so_far
clear_words-IsCleared f g i (suc left) so_far =
    let shift : i + suc left ≡ i + 1 + left = omega arith in
    rw shift (
      clear_words-IsCleared f (put_word g i 0) (i + 1) left (record {
        zeros = λ k h. elim (Bool-cases (k == i)) [
          | inl here ↦
              let e : k ≡ i = ground arith in
              rw e (load-store_self 4 (word_addr g i) 0 g.memory (omega arith))
          | inr before ↦
              load-store_elsewhere 4 (word_addr g i) 4 (word_addr g k) 0 g.memory (ground arith)
              ∙ so_far.zeros k (ground arith)
        ];
        bytes = store-IsBytes 4 _ 0 g.memory so_far.bytes;
        same =
            ap (λ (h : Frames). record h { memory = store32 (word_addr g i) 0 g.memory })
              so_far.same;
        confined = λ a out.
            store-outside 4 (word_addr g i) 0 a g.memory
              (omega (arith, ap Frames.data_addr so_far.same))
            ∙ so_far.confined a (omega arith);
      }))

-- The allocator right after ppa_init_bitmap, for a positive number of pages.
pub record IsEmptyBitmap (f : Frames) (data_addr pages : ℕ) (g : Frames) : Type 0 where
  pub valid : IsBitmap g
  pub none_taken : (j : ℕ) → bitmap_get g j ≡ false
  pub size_lem : g.size ≡ pages / 32 + 1
  pub max_lem : g.max_index + 1 ≡ pages
  pub place : g.data_addr ≡ data_addr
  pub counters :
      (g.mem_used ≡ f.mem_used)
      × (g.mem_rsvd ≡ f.mem_rsvd)
      × (g.mem_free ≡ f.mem_free)
      × (g.mem_total ≡ f.mem_total)
  pub same_defined : pages / 32 + 1 ≤ 2 ^ 31 → g.defined ≡ f.defined
  pub confined : (a : ℕ) → Outside g a → g.memory a ≡ f.memory a

zero_words-empty :
    (f : Frames)
    → IsBitmap f
    → ((k : ℕ) → k < f.size → word f k ≡ 0)
    → (j : ℕ) → bitmap_get f j ≡ false
zero_words-empty f valid zeros j = elim (lt-or-ge f.max_index j) [
  | inl beyond ↦ bitmap_get_beyond f j beyond
  | inr within ↦ rw (
    bitmap_get-digit f j within,
    zeros (j / 32) (omega (arith, valid.size_lem)),
    bit_zero (j % 32),
  )
]

-- For a positive number of pages below 2 ^ 64, ppa_init_bitmap makes a well-formed bitmap of them in
-- which no frame is taken, and changes neither the counters nor memory outside the bitmap.
pub ppa_init_bitmap-IsEmptyBitmap :
    (f : Frames) (data_addr pages : ℕ)
    → IsBytes f.memory
    → 0 < pages
    → pages < 2 ^ 64
    → IsEmptyBitmap f data_addr pages (ppa_init_bitmap f data_addr pages)
unfolding ppa_init_bitmap
ppa_init_bitmap-IsEmptyBitmap f data_addr pages bytes pos small = record {
  valid = valid;
  none_taken = zero_words-empty _ valid cleared_words;
  size_lem = ap Frames.size done.same;
  max_lem = max_lem;
  place = ap Frames.data_addr done.same;
  counters = (
    ap Frames.mem_used done.same,
    ap Frames.mem_rsvd done.same,
    ap Frames.mem_free done.same,
    ap Frames.mem_total done.same,
  );
  same_defined = λ few.
      ap Frames.defined done.same ∙ rw (le→leb (pages / 32 + 1) (2 ^ 31) few) (and_true f.defined);
  confined = λ a out.
      done.confined a (omega (arith, ap Frames.size done.same, ap Frames.data_addr done.same));
}
  where
    blank : Frames
    blank = record f {
      size = pages / 32 + 1;
      max_index = sub64 pages 1;
      data_addr = data_addr;
      defined = f.defined && leb (pages / 32 + 1) (2 ^ 31);
    }

    out : Frames
    out = clear_words blank 0 (pages / 32 + 1)

    done : IsCleared blank (pages / 32 + 1) out
    done = rw (zero-add (pages / 32 + 1)) at (
        clear_words-IsCleared blank blank 0 (pages / 32 + 1) (record {
          zeros = λ k h. elim h [ ];
          bytes = bytes;
          same = refl;
          confined = λ a out. refl;
        }))

    max_lem : out.max_index + 1 ≡ pages
    max_lem = omega (arith, ap Frames.max_index done.same)

    valid : IsBitmap out
    valid = record {
      size_lem = omega (arith, ap Frames.size done.same, max_lem);
      bytes = done.bytes;
    }

    cleared_words : (k : ℕ) → k < out.size → word out k ≡ 0
    cleared_words k h = done.zeros k (omega (arith, ap Frames.size done.same))
