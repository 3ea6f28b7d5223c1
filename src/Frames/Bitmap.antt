-- ===== src/Frames/Bitmap.antt =====
-- ppa_bitmap_get and ppa_bitmap_set as a set of frames.
use si_stultum.Base.{ℕ, zero, suc, ◌+◌, ◌-◌, ◌*◌, ◌/◌, ◌%◌, ◌^◌, ◌≤◌, ◌<◌, bit_and}
use si_stultum.Base.{Bool, true, false, not, ◌≡◌, ◌≢◌, refl, ap, arith, ◌⊎◌, inl, inr}
use si_stultum.Base.{◌==◌, le→ltb, lt→ltb, if◌then◌else◌, Bool-cases, lt-or-ge}
use si_stultum.Memory.{IsBytes, load-store_self, load-store_elsewhere, load-lt, store-IsBytes}
use si_stultum.Memory.{store-outside}
use si_stultum.Bits.{bit, bit-lt, bit-and, bit-or, bit-two-pow_self, bit-two-pow_ne}
use si_stultum.Bits.{two-pow-lt, one-iff-if, bit-complement, bit_or-lt, bit_and-lt, bit_and-two-pow}
use si_stultum.Frames.{Frames, word, word_addr, mask, new_word, put_word, bitmap_set, bitmap_get}
use native.Mathlib.Nat.{one-le-pow}

-- The bitmap has a word for every frame, and one more than the frames fill (`size` is
-- pages / 32 + 1), and memory holds bytes.
pub record IsBitmap (f : Frames) : Type 0 where
  pub size_lem : f.size ≡ (f.max_index + 1) / 32 + 1
  pub bytes : IsBytes f.memory

digit_test : (d p x : ℕ) → d < 2 → 1 ≤ p → x ≡ d * p → not (x == 0) ≡ (d == 1)
digit_test zero p x h pos e = ground arith
digit_test (suc zero) p x h pos e = ground arith
digit_test (suc (suc d)) p x h pos e = absurd (omega arith)

-- The test of the code reads one digit.
test-bit : (w k : ℕ) → not (bit_and w (2 ^ k) == 0) ≡ (bit w k == 1)
test-bit w k =
    digit_test (bit w k) (2 ^ k) _ (bit-lt w k) (one-le-pow k 2 (omega arith)) (bit_and-two-pow w k)

bit-new_word_self :
    (b : Bool) (w k : ℕ) → w < 2 ^ 32 → k < 32 → bit (new_word b w (2 ^ k)) k ≡ (if b then 1 else 0)
unfolding new_word
bit-new_word_self true w k hw h = omega (arith, bit-or w (2 ^ k) k, bit-two-pow_self k, bit-lt w k)
bit-new_word_self false w k hw h = omega (
  arith,
  bit-and w (2 ^ 32 - 1 - 2 ^ k) k,
  bit-complement 32 (2 ^ k) k (two-pow-lt 32 k h) h,
  bit-two-pow_self k,
)

bit-new_word_ne :
    (b : Bool) (w j k : ℕ) → j < 32 → k < 32 → j ≢ k → bit (new_word b w (2 ^ j)) k ≡ bit w k
unfolding new_word
bit-new_word_ne true w j k hj hk ne = omega (arith, bit-or w (2 ^ j) k, bit-two-pow_ne j k ne)
bit-new_word_ne false w j k hj hk ne = omega (
  arith,
  bit-and w (2 ^ 32 - 1 - 2 ^ j) k,
  bit-complement 32 (2 ^ j) k (two-pow-lt 32 j hj) hk,
  bit-two-pow_ne j k ne,
  bit-lt w k,
)

new_word-lt : (b : Bool) (w k : ℕ) → w < 2 ^ 32 → k < 32 → new_word b w (2 ^ k) < 2 ^ 32
unfolding new_word
new_word-lt true w k hw hk = bit_or-lt 32 w (2 ^ k) hw (two-pow-lt 32 k hk)
new_word-lt false w k hw hk = bit_and-lt 32 w (2 ^ 32 - 1 - 2 ^ k) hw

module _ (f : Frames) (bytes : IsBytes f.memory) where
  word-lt : (i : ℕ) → word f i < 2 ^ 32
  word-lt i = load-lt 4 (word_addr f i) f.memory bytes

  word-put_word_self : (i w : ℕ) → w < 2 ^ 32 → word (put_word f i w) i ≡ w
  unfolding put_word
  word-put_word_self i w h = load-store_self 4 (word_addr f i) w f.memory h

  word-put_word_ne : (i j w : ℕ) → i ≢ j → word (put_word f i w) j ≡ word f j
  unfolding put_word
  word-put_word_ne i j w ne =
      load-store_elsewhere 4 (word_addr f i) 4 (word_addr f j) w f.memory (omega arith)

-- The word of frame i after ppa_bitmap_set.
abbrev pub set_word : Frames → ℕ → Bool → Frames
set_word f i b = put_word f (i / 32) (new_word b (word f (i / 32)) (mask i))

-- The digit of frame j: the content of the bitmap.
abbrev pub digit : Frames → ℕ → ℕ
digit f j = bit (word f (j / 32)) (j % 32)

module _ (f : Frames) (bytes : IsBytes f.memory) (b : Bool) where
  digit-set_word_self : (i j : ℕ) → i ≡ j → digit (set_word f i b) j ≡ (if b then 1 else 0)
  digit-set_word_self i j e =
      rw
        (
          ← e,
          word-put_word_self f bytes (i / 32) _
              (new_word-lt b _ (i % 32) (word-lt f bytes (i / 32)) (omega arith)),
        )
        (bit-new_word_self b (word f (i / 32)) (i % 32) (word-lt f bytes (i / 32)) (omega arith))

  digit-set_word_ne : (i j : ℕ) → i ≢ j → digit (set_word f i b) j ≡ digit f j
  digit-set_word_ne i j ne = elim (Bool-cases (i / 32 == j / 32)) [
    | inl same ↦
        let e : i / 32 ≡ j / 32 = ground arith in
        rw
          (
            ← e,
            word-put_word_self f bytes (i / 32) _
                (new_word-lt b _ (i % 32) (word-lt f bytes (i / 32)) (omega arith)),
          )
          (bit-new_word_ne b (word f (i / 32)) (i % 32) (j % 32) (omega arith) (omega arith)
            (omega arith))
    | inr other ↦
        ap (λ w. bit w (j % 32)) (word-put_word_ne f bytes (i / 32) (j / 32) _ (ground arith))
  ]

pub bitmap_get-digit : (f : Frames) (j : ℕ) → j ≤ f.max_index → bitmap_get f j ≡ (digit f j == 1)
unfolding bitmap_get
bitmap_get-digit f j h = rw (le→ltb _ _ h) (test-bit (word f (j / 32)) (j % 32))

pub bitmap_set-set_word :
    (f : Frames) (i : ℕ) (b : Bool) → i ≤ f.max_index → (bitmap_set f i b).0 ≡ set_word f i b
unfolding bitmap_set
bitmap_set-set_word f i b h = rw (le→ltb _ _ h)

bitmap_get-set_word :
    (f : Frames) (i j : ℕ) (b : Bool)
    → IsBytes f.memory
    → i ≤ f.max_index
    → j ≤ f.max_index
    → bitmap_get (set_word f i b) j ≡ (if i == j then b else bitmap_get f j)
unfolding put_word
bitmap_get-set_word f i j b bytes hi hj = elim (Bool-cases (i == j)) [
  | inl same ↦
      rw
        (
          same,
          bitmap_get-digit (set_word f i b) j hj,
          digit-set_word_self f bytes b i j (ground arith),
        )
        (one-iff-if b)
  | inr other ↦ rw (
    other,
    bitmap_get-digit (set_word f i b) j hj,
    bitmap_get-digit f j hj,
    digit-set_word_ne f bytes b i j (ground arith),
  )
]

-- No frame beyond the last one reads as taken.
pub bitmap_get_beyond : (f : Frames) (j : ℕ) → f.max_index < j → bitmap_get f j ≡ false
unfolding bitmap_get
bitmap_get_beyond f j h = rw (lt→ltb _ _ h)

pub bitmap_set_beyond :
    (f : Frames) (i : ℕ) (b : Bool) → f.max_index < i → bitmap_set f i b ≡ (f, false)
unfolding bitmap_set
bitmap_set_beyond f i b h = rw (lt→ltb _ _ h)

-- `g` has the frames of `f`, but for frame i, which is taken exactly if `b` is true.
abbrev pub Marked : Frames → Frames → ℕ → Bool → Type 0
Marked f g i b = (j : ℕ) → bitmap_get g j ≡ (if i == j then b else bitmap_get f j)

pub set_word-Marked :
    (f : Frames) (i : ℕ) (b : Bool)
    → IsBytes f.memory
    → i ≤ f.max_index
    → Marked f (set_word f i b) i b
unfolding put_word
set_word-Marked f i b bytes hi j = elim (lt-or-ge f.max_index j) [
  | inl beyond ↦
      ground (arith, bitmap_get_beyond (set_word f i b) j beyond, bitmap_get_beyond f j beyond)
  | inr within ↦ bitmap_get-set_word f i j b bytes hi within
]

pub set_word-IsBitmap : (f : Frames) (i : ℕ) (b : Bool) → IsBitmap f → IsBitmap (set_word f i b)
unfolding put_word
set_word-IsBitmap f i b valid = record {
  size_lem = valid.size_lem;
  bytes = store-IsBytes 4 _ _ f.memory valid.bytes;
}

-- An address outside the words of the bitmap.
abbrev pub Outside : Frames → ℕ → Type 0
Outside f a = (a < f.data_addr) ⊎ (f.data_addr + 4 * f.size ≤ a)

-- What ppa_bitmap_set promises at an index in range: the bit takes the value and is returned, no
-- other bit changes, memory outside the word is left alone, and the bitmap stays well formed.
pub record IsUpdated (f : Frames) (i : ℕ) (b : Bool) (out : Frames × Bool) : Type 0 where
  pub marked : Marked f out.0 i b
  pub returned : out.1 ≡ b
  pub valid : IsBitmap out.0
  pub confined : (a : ℕ) → Outside f a → out.0.memory a ≡ f.memory a

pub set_word-confined :
    (f : Frames) (i : ℕ) (b : Bool) (a : ℕ)
    → IsBitmap f
    → i ≤ f.max_index
    → Outside f a
    → (set_word f i b).memory a ≡ f.memory a
unfolding put_word
set_word-confined f i b a valid hi out =
    store-outside 4 _ _ a f.memory (omega (arith, valid.size_lem))

-- On a well-formed bitmap, ppa_bitmap_set at an index in range gives that frame the value, returns
-- it, changes no other frame and no byte outside the bitmap, and keeps the bitmap well formed.
pub bitmap_set-IsUpdated :
    (f : Frames) (i : ℕ) (b : Bool)
    → IsBitmap f
    → i ≤ f.max_index
    → IsUpdated f i b (bitmap_set f i b)
bitmap_set-IsUpdated f i b valid hi = record {
  marked = rw at_word (set_word-Marked f i b valid.bytes hi);
  returned = returned_value;
  valid = rw at_word (set_word-IsBitmap f i b valid);
  confined = rw at_word (λ a out. set_word-confined f i b a valid hi out);
}
  where
    at_word : (bitmap_set f i b).0 ≡ set_word f i b
    at_word = bitmap_set-set_word f i b hi

    returned_value : (bitmap_set f i b).1 ≡ b
    returned_value =
        unfold bitmap_set in
        rw
          (
            le→ltb _ _ hi,
            test-bit (word (set_word f i b) (i / 32)) (i % 32),
            digit-set_word_self f valid.bytes b i i refl,
          )
          (one-iff-if b)
