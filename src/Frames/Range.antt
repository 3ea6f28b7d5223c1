-- ===== src/Frames/Range.antt =====
-- ppa_lckn, ppa_rsvn, ppa_ulckn and ppa_ursvn: runs of frames.
use si_stultum.Base.{ℕ, zero, suc, ◌+◌, ◌*◌, ◌/◌, ◌^◌, ◌≤◌, ◌<◌, ◌&&◌}
use si_stultum.Base.{Bool, true, false, ◌≡◌, refl, sym, ◌∙◌, arith, inl, inr}
use si_stultum.Base.{le→leb, ltb, leb, if◌then◌else◌, lt-or-ge, add64, u64, ◌-◌, max}
use si_stultum.Frames.{Frames, bitmap_get, lck, ulck, rsv, ursv, lckn, rsvn, ulckn, ursvn}
use mathlib.Core.Path.{subst}
use si_stultum.Frames.{walk, walk_from, nth_addr}
use si_stultum.Frames.Bitmap.{IsBitmap, Outside}
use si_stultum.Frames.Lock.{
  IsBalanced, held-IsBalanced, taken, IsMarking, lck_beyond, rsv_beyond, ulck_beyond, ursv_beyond,
}
use si_stultum.Frames.Lock.{lck-IsMarking, ulck-IsMarking, rsv-IsMarking, ursv-IsMarking}

-- The frames of a run that lie beyond the last one: where the run is to be taken, each of them
-- counts as a page although no frame is.
abbrev pub overrun : Frames → ℕ → ℕ → Bool → ℕ
overrun f lo n b = if b then lo + n - max lo (f.max_index + 1) else 0

-- `g` is `f` with the frames from `lo`, `n` of them, taken exactly if `b` is true; a frame beyond
-- the last one is not in the bitmap. The bytes that are used or reserved change by as many pages as
-- the taken frames do and the overrun says, and all bytes together stay, in the arithmetic of
-- uint64_t.
pub record IsRun (f : Frames) (lo n : ℕ) (b : Bool) (g : Frames) : Type 0 where
  pub marked :
      (j : ℕ)
      → j ≤ f.max_index
      → bitmap_get g j ≡ (if leb lo j && ltb j (lo + n) then b else bitmap_get f j)
  pub valid : IsBitmap g
  pub held :
      u64 (g.mem_used + g.mem_rsvd + 4096 * taken f)
      ≡ u64 (f.mem_used + f.mem_rsvd + 4096 * (taken g + overrun f lo n b))
  pub kept : u64 (g.mem_free + g.mem_used + g.mem_rsvd) ≡ u64 (f.mem_free + f.mem_used + f.mem_rsvd)
  pub same_total : g.mem_total ≡ f.mem_total
  pub same_max : g.max_index ≡ f.max_index
  pub same_defined : g.defined ≡ f.defined
  pub same_place : g.data_addr ≡ f.data_addr
  pub same_size : g.size ≡ f.size
  pub confined : (a : ℕ) → Outside f a → g.memory a ≡ f.memory a

empty-IsRun : (f : Frames) (lo : ℕ) (b : Bool) → IsBitmap f → IsRun f lo 0 b f
empty-IsRun f lo b valid = record {
  marked = λ j h. ground arith;
  valid = valid;
  held = ground arith;
  kept = refl;
  same_total = refl;
  same_max = refl;
  same_defined = refl;
  same_place = refl;
  same_size = refl;
  confined = λ a out. refl;
}

within_overrun : (f : Frames) (i : ℕ) (b : Bool) → i ≤ f.max_index → overrun f i 1 b ≡ 0
within_overrun f i true within = omega arith
within_overrun f i false within = refl

IsMarking-IsRun :
    {f g : Frames} (i : ℕ) (b : Bool) → i ≤ f.max_index → IsMarking f i b g → IsRun f i 1 b g
IsMarking-IsRun {f} i b within m = record {
  marked = λ j h. ground (arith, m.marked j);
  valid = m.valid;
  held = omega (arith, m.held, within_overrun f i b within);
  kept = m.kept;
  same_total = m.same_total;
  same_max = m.same_max;
  same_defined = m.same_defined;
  same_place = m.same_place;
  same_size = m.same_size;
  confined = m.confined;
}

overrun_append :
    (f g : Frames) (lo n mid k : ℕ) (b : Bool)
    → lo + n ≡ mid
    → g.max_index ≡ f.max_index
    → overrun f lo n b + overrun g mid k b ≡ overrun f lo (n + k) b
overrun_append f g lo n mid k true e same = omega arith
overrun_append f g lo n mid k false e same = refl

-- Two changes of the counters one after the other.
chain_held :
    (a b c n m k more rest over : ℕ)
    → u64 (b + 4096 * n) ≡ u64 (a + 4096 * (m + more))
    → u64 (c + 4096 * m) ≡ u64 (b + 4096 * (k + rest))
    → more + rest ≡ over
    → u64 (c + 4096 * n) ≡ u64 (a + 4096 * (k + over))
chain_held a b c n m k more rest over first second e = omega arith

-- A run behind another one.
append-IsRun :
    {f g h : Frames} (lo n mid k : ℕ) (b : Bool)
    → lo + n ≡ mid
    → IsRun f lo n b g
    → IsRun g mid k b h
    → IsRun f lo (n + k) b h
append-IsRun {f} {g} {h} lo n mid k b e first second = record {
  marked = λ j l. ground (arith, first.marked j, second.marked j, first.same_max);
  valid = second.valid;
  held =
      chain_held (f.mem_used + f.mem_rsvd) (g.mem_used + g.mem_rsvd) (h.mem_used + h.mem_rsvd)
        (taken f) (taken g) (taken h) (overrun f lo n b) (overrun g mid k b) _ first.held
        second.held (overrun_append f g lo n mid k b e first.same_max);
  kept = second.kept ∙ first.kept;
  same_total = second.same_total ∙ first.same_total;
  same_max = second.same_max ∙ first.same_max;
  same_defined = second.same_defined ∙ first.same_defined;
  same_place = second.same_place ∙ first.same_place;
  same_size = second.same_size ∙ first.same_size;
  confined = λ a out.
      second.confined a (omega (arith, first.same_place, first.same_size)) ∙ first.confined a out;
}

-- A run without overrun keeps the balance.
pub run-IsBalanced :
    {f g : Frames} {lo n : ℕ} {b : Bool}
    → overrun f lo n b ≡ 0
    → IsRun f lo n b g
    → IsBalanced f
    → IsBalanced g
run-IsBalanced {f} {g} none_over run =
    held-IsBalanced f g (omega (arith, run.held, none_over)) run.kept run.same_total

-- What a run is made of: an operation on one frame.
abbrev IsStep : Bool → (Frames → ℕ → Frames) → Type 0
IsStep b op = (f : Frames) (addr : ℕ) → IsBitmap f → IsRun f (addr / 4096) 1 b (op f addr)

before_run : (x b : Bool) (lo n j : ℕ) → j < lo → x ≡ (if leb lo j && ltb j (lo + n) then b else x)
before_run x b lo n j h = ground arith

-- Beyond the last frame only counters can change.
beyond-IsRun :
    (f : Frames) (i : ℕ) (used rsvd free : ℕ)
    → IsBitmap f
    → f.max_index < i
    → u64 (used + rsvd) ≡ u64 (f.mem_used + f.mem_rsvd + 4096)
    → u64 (free + used + rsvd) ≡ u64 (f.mem_free + f.mem_used + f.mem_rsvd)
    → IsRun f i 1 true (record f { mem_used = used; mem_rsvd = rsvd; mem_free = free })
unfolding bitmap_get
beyond-IsRun f i used rsvd free valid beyond moved kept = record {
  marked = λ j h. before_run _ true i 1 j (omega arith);
  valid = record { size_lem = valid.size_lem; bytes = valid.bytes };
  held = omega (arith, moved);
  kept = kept;
  same_total = refl;
  same_max = refl;
  same_defined = refl;
  same_place = refl;
  same_size = refl;
  confined = λ a out. refl;
}

untouched-IsRun : (f : Frames) (i : ℕ) → IsBitmap f → f.max_index < i → IsRun f i 1 false f
untouched-IsRun f i valid beyond = record {
  marked = λ j h. before_run _ false i 1 j (omega arith);
  valid = valid;
  held = ground arith;
  kept = refl;
  same_total = refl;
  same_max = refl;
  same_defined = refl;
  same_place = refl;
  same_size = refl;
  confined = λ a out. refl;
}

lck-IsStep : IsStep true lck
lck-IsStep f addr valid = elim (lt-or-ge f.max_index (addr / 4096)) [
  | inl beyond ↦
      rw (lck_beyond f addr beyond)
        (beyond-IsRun f _ _ _ _ valid beyond (omega arith) (omega arith))
  | inr within ↦ IsMarking-IsRun _ true within (lck-IsMarking f addr valid within)
]

rsv-IsStep : IsStep true rsv
rsv-IsStep f addr valid = elim (lt-or-ge f.max_index (addr / 4096)) [
  | inl beyond ↦
      rw (rsv_beyond f addr beyond)
        (beyond-IsRun f _ _ _ _ valid beyond (omega arith) (omega arith))
  | inr within ↦ IsMarking-IsRun _ true within (rsv-IsMarking f addr valid within)
]

ulck-IsStep : IsStep false ulck
ulck-IsStep f addr valid = elim (lt-or-ge f.max_index (addr / 4096)) [
  | inl beyond ↦ rw (ulck_beyond f addr beyond) (untouched-IsRun f _ valid beyond)
  | inr within ↦ IsMarking-IsRun _ false within (ulck-IsMarking f addr valid within)
]

ursv-IsStep : IsStep false ursv
ursv-IsStep f addr valid = elim (lt-or-ge f.max_index (addr / 4096)) [
  | inl beyond ↦ rw (ursv_beyond f addr beyond) (untouched-IsRun f _ valid beyond)
  | inr within ↦ IsMarking-IsRun _ false within (ursv-IsMarking f addr valid within)
]

walk-IsRun :
    {b : Bool} {op : Frames → ℕ → Frames} (step : IsStep b op) (f : Frames) (addr n : ℕ)
    → IsBitmap f
    → addr + 4096 * n < 2 ^ 64
    → IsRun f (addr / 4096) n b (walk op f addr n)
unfolding walk
walk-IsRun {b} step f addr zero valid fits = empty-IsRun f _ b valid
walk-IsRun {b} {op} step f addr (suc n) valid fits =
    let first = step f addr valid in
    let next : add64 addr 4096 ≡ addr + 4096 = omega arith in
    let e : suc n ≡ 1 + n = omega arith in
    rw (next, e)
      (append-IsRun (addr / 4096) 1 ((addr + 4096) / 4096) n b (omega arith) first
        (walk-IsRun step (op f addr) (addr + 4096) n first.valid (omega arith)))

-- If the run ends below 2 ^ 64, then ppa_lckn takes the frames of its n pages in the bitmap and no
-- other one; the byte counters change by as many pages as the number of taken frames, and by one
-- more for each page beyond the bitmap.
pub lckn-IsRun :
    (f : Frames) (addr n : ℕ)
    → IsBitmap f
    → addr + 4096 * n < 2 ^ 64
    → IsRun f (addr / 4096) n true (lckn f addr n)
unfolding lckn
lckn-IsRun = walk-IsRun lck-IsStep

-- If the run ends below 2 ^ 64, then ppa_rsvn takes the frames of its n pages in the bitmap and no
-- other one; the byte counters change by as many pages as the number of taken frames, and by one
-- more for each page beyond the bitmap.
pub rsvn-IsRun :
    (f : Frames) (addr n : ℕ)
    → IsBitmap f
    → addr + 4096 * n < 2 ^ 64
    → IsRun f (addr / 4096) n true (rsvn f addr n)
unfolding rsvn
rsvn-IsRun = walk-IsRun rsv-IsStep

pub and_true : (b : Bool) → (b && true) ≡ b
and_true true = refl
and_true false = refl

nth_addr_lem : (addr i : ℕ) → addr + 4096 * i < 2 ^ 64 → nth_addr addr i ≡ addr + 4096 * i
unfolding nth_addr
nth_addr_lem addr i fits = omega arith

walk_from-IsRun :
    {b : Bool} {op : Frames → ℕ → Frames} (step : IsStep b op) (f : Frames) (addr i left : ℕ)
    → IsBitmap f
    → addr + 4096 * (i + left) < 2 ^ 64
    → i + left ≤ 2 ^ 19
    → IsRun f (addr / 4096 + i) left b (walk_from op f addr i left)
unfolding walk_from
walk_from-IsRun {b} step f addr i zero valid fits small = empty-IsRun f _ b valid
walk_from-IsRun {b} {op} step f addr i (suc left) valid fits small =
    let here : nth_addr addr i ≡ addr + 4096 * i = nth_addr_lem addr i (omega arith) in
    let at : (addr + 4096 * i) / 4096 ≡ addr / 4096 + i = omega arith in
    let first : IsRun f (addr / 4096 + i) 1 b (op f (addr + 4096 * i)) =
      rw (← at) (step f (addr + 4096 * i) valid) in
    let e : suc left ≡ 1 + left = omega arith in
    rw (here, e)
      (append-IsRun (addr / 4096 + i) 1 (addr / 4096 + (i + 1)) left b (omega arith) first (
        walk_from-IsRun step (op f (addr + 4096 * i)) addr (i + 1) left first.valid (omega arith)
          (omega arith)))

hit-IsRun :
    {f g : Frames} {lo n : ℕ} {b : Bool} (hit : ℕ) (still : Bool)
    → still ≡ f.defined
    → IsRun f lo n b g
    → IsRun f lo n b (record g { last_hit = hit; defined = still })
unfolding bitmap_get
hit-IsRun hit still same run = record {
  marked = run.marked;
  valid = record { size_lem = run.valid.size_lem; bytes = run.valid.bytes };
  held = run.held;
  kept = run.kept;
  same_total = run.same_total;
  same_max = run.same_max;
  same_defined = same;
  same_place = run.same_place;
  same_size = run.same_size;
  confined = run.confined;
}

-- If the run ends below 2 ^ 64 and has at most 2 ^ 19 pages, then no int overflows in ppa_ulckn: it frees the frames of its
-- n pages and no other one, and the byte counters change by as many pages as the number of taken
-- frames.
pub ulckn-IsRun :
    (f : Frames) (addr n : ℕ)
    → IsBitmap f
    → addr + 4096 * n < 2 ^ 64
    → n ≤ 2 ^ 19
    → IsRun f (addr / 4096) n false (ulckn f addr n)
unfolding ulckn
ulckn-IsRun f addr n valid fits small =
    let start : addr / 4096 ≡ addr / 4096 + 0 = omega arith in
    let run =
      subst (λ lo. IsRun f lo n false (walk_from ulck f addr 0 n)) (sym start)
        (walk_from-IsRun ulck-IsStep f addr 0 n valid (omega arith) (omega arith)) in
    hit-IsRun _ _ (rw (le→leb n (2 ^ 19) small) (and_true _ ∙ run.same_defined)) run

-- If the run ends below 2 ^ 64 and has at most 2 ^ 19 pages, then no int overflows in ppa_ursvn: it frees the frames of its
-- n pages and no other one, and the byte counters change by as many pages as the number of taken
-- frames.
pub ursvn-IsRun :
    (f : Frames) (addr n : ℕ)
    → IsBitmap f
    → addr + 4096 * n < 2 ^ 64
    → n ≤ 2 ^ 19
    → IsRun f (addr / 4096) n false (ursvn f addr n)
unfolding ursvn
ursvn-IsRun f addr n valid fits small =
    let start : addr / 4096 ≡ addr / 4096 + 0 = omega arith in
    let run =
      subst (λ lo. IsRun f lo n false (walk_from ursv f addr 0 n)) (sym start)
        (walk_from-IsRun ursv-IsStep f addr 0 n valid (omega arith) (omega arith)) in
    hit-IsRun _ _ (rw (le→leb n (2 ^ 19) small) (and_true _ ∙ run.same_defined)) run
