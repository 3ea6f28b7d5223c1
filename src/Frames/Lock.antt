-- ===== src/Frames/Lock.antt =====
-- ppa_lck, ppa_ulck, ppa_rsv and ppa_ursv: what they do to the bitmap and to the byte counters.
use si_stultum.Base.{ℕ, zero, suc, ◌+◌, ◌*◌, ◌/◌, ◌≤◌, ◌<◌}
use si_stultum.Base.{Bool, true, false, not, ◌≡◌, refl, ap, arith, inl, inr}
use si_stultum.Base.{◌==◌, if◌then◌else◌, Bool-cases, from_bool, u64, add64, sub64}
use si_stultum.Frames.{Frames, bitmap_get, put_word, lck, ulck, rsv, ursv}
use si_stultum.Frames.Bitmap.{IsBitmap, Marked, set_word, bitmap_set-set_word, set_word-Marked}
use si_stultum.Frames.Bitmap.{
  set_word-IsBitmap, bitmap_set_beyond, bitmap_get_beyond, Outside, set_word-confined,
}

-- The number of indices below n at which a test holds.
unfoldable pub count : (ℕ → Bool) → ℕ → ℕ
count p zero = 0
count p (suc n) = from_bool (p n) + count p n

pub count_ext : (p q : ℕ → Bool) (n : ℕ) → ((j : ℕ) → j < n → p j ≡ q j) → count p n ≡ count q n
unfolding count
count_ext p q zero h = refl
count_ext p q (suc n) h =
    omega (arith, ap from_bool (h n (omega arith)), count_ext p q n (λ j l. h j (omega arith)))

pub count_update :
    (p q : ℕ → Bool) (n i : ℕ) (b : Bool)
    → ((j : ℕ) → q j ≡ (if i == j then b else p j))
    → i < n
    → count q n + from_bool (p i) ≡ count p n + from_bool b
unfolding count
count_update p q zero i b h l = absurd (omega arith)
count_update p q (suc n) i b h l = elim (Bool-cases (i == n)) [
  | inl last ↦ ground (arith, h n, count_ext q p n (λ j l'. ground (arith, h j)))
  | inr before ↦ ground (arith, h n, count_update p q n i b h (ground arith))
]

pub count_none : (p : ℕ → Bool) (n : ℕ) → ((j : ℕ) → p j ≡ false) → count p n ≡ 0
unfolding count
count_none p zero h = refl
count_none p (suc n) h = omega (arith, ap from_bool (h n), count_none p n h)

-- The number of frames that are taken.
abbrev pub taken : Frames → ℕ
taken f = count (bitmap_get f) (suc f.max_index)

-- The byte counters agree with the bitmap, in the arithmetic of uint64_t: what is used or reserved
-- is the taken frames, and with what is free it makes up the total.
pub record IsBalanced (f : Frames) : Type 0 where
  pub held : u64 (f.mem_used + f.mem_rsvd) ≡ u64 (4096 * taken f)
  pub total : u64 (f.mem_free + f.mem_used + f.mem_rsvd) ≡ u64 f.mem_total

-- What an operation that marks frame i as `b` promises. The bytes that are used or reserved change
-- by as many pages as the taken frames do, and all bytes together stay, in the arithmetic of
-- uint64_t.
pub record IsMarking (f : Frames) (i : ℕ) (b : Bool) (g : Frames) : Type 0 where
  pub marked : Marked f g i b
  pub valid : IsBitmap g
  pub held :
      u64 (g.mem_used + g.mem_rsvd + 4096 * taken f)
      ≡ u64 (f.mem_used + f.mem_rsvd + 4096 * taken g)
  pub kept : u64 (g.mem_free + g.mem_used + g.mem_rsvd) ≡ u64 (f.mem_free + f.mem_used + f.mem_rsvd)
  pub same_total : g.mem_total ≡ f.mem_total
  pub same_max : g.max_index ≡ f.max_index
  pub same_defined : g.defined ≡ f.defined
  pub same_place : g.data_addr ≡ f.data_addr
  pub same_size : g.size ≡ f.size
  pub confined : (a : ℕ) → Outside f a → g.memory a ≡ f.memory a

same-Marked : (f : Frames) (i : ℕ) (b : Bool) → bitmap_get f i ≡ b → Marked f f i b
same-Marked f i b e j = elim (Bool-cases (i == j)) [
  | inl same ↦ let i≡j : i ≡ j = ground arith in rw same (rw (← i≡j) e)
  | inr other ↦ rw other
]

-- Sums that differ by as many pages as two counts do.
held_pages :
    (now before n m more less : ℕ)
    → u64 (now + 4096 * less) ≡ u64 (before + 4096 * more)
    → m + less ≡ n + more
    → u64 (now + 4096 * n) ≡ u64 (before + 4096 * m)
held_pages now before n m more less moved pages = omega arith

-- A change by as many pages as the taken frames keeps the balance.
pub held-IsBalanced :
    (f g : Frames)
    → u64 (g.mem_used + g.mem_rsvd + 4096 * taken f)
      ≡ u64 (f.mem_used + f.mem_rsvd + 4096 * taken g)
    → u64 (g.mem_free + g.mem_used + g.mem_rsvd) ≡ u64 (f.mem_free + f.mem_used + f.mem_rsvd)
    → g.mem_total ≡ f.mem_total
    → IsBalanced f
    → IsBalanced g
held-IsBalanced f g held kept same bal = record {
  held = omega (arith, held, bal.held);
  total = omega (arith, kept, bal.total, same);
}

-- The bitmap with frame i marked, and new counters.
abbrev recount : Frames → ℕ → Bool → (used rsvd free hit : ℕ) → Frames
recount f i b used rsvd free hit = record (set_word f i b) {
  mem_used = used;
  mem_rsvd = rsvd;
  mem_free = free;
  last_hit = hit;
}

module _ (f : Frames) (i : ℕ) (valid : IsBitmap f) (within : i ≤ f.max_index) where
  taken-set_word :
      (b : Bool) → taken (set_word f i b) + from_bool (bitmap_get f i) ≡ taken f + from_bool b
  unfolding put_word
  taken-set_word b =
      count_update (bitmap_get f) (bitmap_get (set_word f i b)) (suc f.max_index) i b
        (set_word-Marked f i b valid.bytes within) (omega arith)

  -- Frame i was `not b`: the bitmap and the counters change together.
  recount-IsMarking :
      (b : Bool) (used rsvd free hit : ℕ)
      → bitmap_get f i ≡ not b
      → u64 (used + rsvd + 4096 * from_bool (not b))
        ≡ u64 (f.mem_used + f.mem_rsvd + 4096 * from_bool b)
      → u64 (free + used + rsvd) ≡ u64 (f.mem_free + f.mem_used + f.mem_rsvd)
      → IsMarking f i b (recount f i b used rsvd free hit)
  unfolding put_word bitmap_get
  recount-IsMarking b used rsvd free hit was moved kept = record {
    marked = set_word-Marked f i b valid.bytes within;
    valid =
        let v = set_word-IsBitmap f i b valid in record { size_lem = v.size_lem; bytes = v.bytes };
    held =
        held_pages (used + rsvd) (f.mem_used + f.mem_rsvd) (taken f) (taken (set_word f i b))
          (from_bool b) (from_bool (not b)) moved (rw (← was) (taken-set_word b));
    kept = kept;
    same_total = refl;
    same_max = refl;
    same_defined = refl;
    same_place = refl;
    same_size = refl;
    confined = λ a out. set_word-confined f i b a valid within out;
  }

  same-IsMarking : (b : Bool) → bitmap_get f i ≡ b → IsMarking f i b f
  same-IsMarking b e = record {
    marked = same-Marked f i b e;
    valid = valid;
    held = refl;
    kept = refl;
    same_total = refl;
    same_max = refl;
    same_defined = refl;
    same_place = refl;
    same_size = refl;
    confined = λ a out. refl;
  }

module _ (f : Frames) (addr : ℕ) (valid : IsBitmap f) (within : addr / 4096 ≤ f.max_index) where
  -- In range, ppa_lck takes the frame of the address and no other one, and the byte
  -- counters change by as many pages as the number of taken frames.
  pub lck-IsMarking : IsMarking f (addr / 4096) true (lck f addr)
  unfolding lck put_word
  lck-IsMarking = elim (Bool-cases (bitmap_get f (addr / 4096))) [
    | inl was ↦ rw was (same-IsMarking f _ valid within true was)
    | inr free ↦
        rw (free, bitmap_set-set_word f (addr / 4096) true within)
          (recount-IsMarking f _ valid within true _ _ _ _ free (omega arith) (omega arith))
  ]

  -- In range, ppa_rsv takes the frame of the address and no other one, and the byte
  -- counters change by as many pages as the number of taken frames.
  pub rsv-IsMarking : IsMarking f (addr / 4096) true (rsv f addr)
  unfolding rsv put_word
  rsv-IsMarking = elim (Bool-cases (bitmap_get f (addr / 4096))) [
    | inl was ↦ rw was (same-IsMarking f _ valid within true was)
    | inr free ↦
        rw (free, bitmap_set-set_word f (addr / 4096) true within)
          (recount-IsMarking f _ valid within true _ _ _ _ free (omega arith) (omega arith))
  ]

  -- In range, ppa_ulck frees the frame of the address and no other one, and the byte
  -- counters change by as many pages as the number of taken frames.
  pub ulck-IsMarking : IsMarking f (addr / 4096) false (ulck f addr)
  unfolding ulck put_word
  ulck-IsMarking = elim (Bool-cases (bitmap_get f (addr / 4096))) [
    | inl was ↦
        rw (was, bitmap_set-set_word f (addr / 4096) false within)
          (recount-IsMarking f _ valid within false _ _ _ _ was (omega arith) (omega arith))
    | inr free ↦ rw free (same-IsMarking f _ valid within false free)
  ]

  -- In range, ppa_ursv frees the frame of the address and no other one, and the byte
  -- counters change by as many pages as the number of taken frames.
  pub ursv-IsMarking : IsMarking f (addr / 4096) false (ursv f addr)
  unfolding ursv put_word
  ursv-IsMarking = elim (Bool-cases (bitmap_get f (addr / 4096))) [
    | inl was ↦
        rw (was, bitmap_set-set_word f (addr / 4096) false within)
          (recount-IsMarking f _ valid within false _ _ _ _ was (omega arith) (omega arith))
    | inr free ↦ rw free (same-IsMarking f _ valid within false free)
  ]

pub lck_beyond :
    (f : Frames) (addr : ℕ)
    → f.max_index < addr / 4096
    → lck f addr ≡ record f { mem_used = add64 f.mem_used 4096; mem_free = sub64 f.mem_free 4096 }
unfolding lck
lck_beyond f addr h =
    rw (bitmap_get_beyond f (addr / 4096) h, bitmap_set_beyond f (addr / 4096) true h)

-- On a balanced allocator, ppa_lck of an address whose frame lies beyond the last one breaks the
-- balance of the byte counters with the bitmap.
pub lck_beyond-not-IsBalanced :
    (f : Frames) (addr : ℕ) → f.max_index < addr / 4096 → IsBalanced f → ¬ IsBalanced (lck f addr)
unfolding bitmap_get
lck_beyond-not-IsBalanced f addr h bal =
    rw (lck_beyond f addr h) (λ bad. absurd (unbalanced bad.held))
  where
    unbalanced : u64 (add64 f.mem_used 4096 + f.mem_rsvd) ≡ u64 (4096 * taken f) → ⊥
    unbalanced e = omega (arith, bal.held)

pub rsv_beyond :
    (f : Frames) (addr : ℕ)
    → f.max_index < addr / 4096
    → rsv f addr ≡ record f { mem_rsvd = add64 f.mem_rsvd 4096; mem_free = sub64 f.mem_free 4096 }
unfolding rsv
rsv_beyond f addr h =
    rw (bitmap_get_beyond f (addr / 4096) h, bitmap_set_beyond f (addr / 4096) true h)

pub ulck_beyond : (f : Frames) (addr : ℕ) → f.max_index < addr / 4096 → ulck f addr ≡ f
unfolding ulck
ulck_beyond f addr h = rw (bitmap_get_beyond f (addr / 4096) h)

pub ursv_beyond : (f : Frames) (addr : ℕ) → f.max_index < addr / 4096 → ursv f addr ≡ f
unfolding ursv
ursv_beyond f addr h = rw (bitmap_get_beyond f (addr / 4096) h)
