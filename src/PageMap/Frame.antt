-- ===== src/PageMap/Frame.antt =====
-- Writes to a frame that is no table: the translation does not see them.
use si_stultum.Base.{ℕ, zero, suc, ◌+◌, ◌*◌, ◌/◌, ◌≤◌, ◌<◌, false, ◌≡◌, ◌≢◌}
use si_stultum.Base.{refl, sym, ap, ◌∙◌, arith, inl, inr, ◌⊎◌, lt-or-ge}
use si_stultum.Memory.{Memory, IsBytes}
use si_stultum.Frames.{bitmap_get, request}
use si_stultum.Frames.Request.{IsGrant}
use si_stultum.Frames.Bitmap.{IsBitmap, Outside}
use si_stultum.Frames.Supply.{HasSupply, grantable}
use si_stultum.Frames.Lock.{count_ext}
use si_stultum.PageMap.{Paging, addr_get, find_paddr, with_memory}
use si_stultum.PageMap.Tree.{
  entry, IsPresent, Labels, IsTree, IsSpare, seek, seek-same, find_paddr-seek, table_index-lt,
  bitmap_get_ext,
}
use si_stultum.PageMap.Entries.{entry_ext, bitmap-Outside}

-- Memory m' differs from m inside frame t alone.
abbrev pub OnlyIn : Memory → ℕ → Memory → Type 0
OnlyIn m t m' = (a : ℕ) → (a < 4096 * t) ⊎ (4096 * t + 4096 ≤ a) → m' a ≡ m a

-- Memory m' holds the same entries in every table.
abbrev SameEntries : Memory → Labels → Memory → Type 0
SameEntries m l m' = (u j : ℕ) → l.level u ≢ 0 → j < 512 → entry m' u j ≡ entry m u j

module _ (s : Paging) (l : Labels) (m' : Memory) (tree : IsTree s l)
    (same : SameEntries s.frames.memory l m') where
  seek_kept :
      (n u w : ℕ) → l.level u ≡ n → seek m' n (4096 * u) w ≡ seek s.frames.memory n (4096 * u) w
  seek_kept zero u w labelled = unfold seek in refl
  seek_kept (suc zero) u w labelled =
      seek-same s.frames.memory m' zero u w
        (same u _ (omega (arith, labelled)) (table_index-lt w (12 + 9 * zero)))
        (λ here. unfold seek in refl)
  seek_kept (suc (suc n)) u w labelled =
      seek-same s.frames.memory m' (suc n) u w
        (same u _ (omega (arith, labelled)) (table_index-lt w (12 + 9 * suc n)))
        (λ here.
          seek_kept (suc n) _ w
            (tree.child u n _ labelled (table_index-lt w (12 + 9 * suc n)) here).0)

  find_paddr_kept : (w : ℕ) → find_paddr (with_memory s m') w ≡ find_paddr s w
  find_paddr_kept w =
      find_paddr-seek (with_memory s m') w
      ∙ ap (λ x. seek m' 4 x w) (sym tree.root)
      ∙ seek_kept 4 (s.pml4 / 4096) w tree.root_level
      ∙ ap (λ x. seek s.frames.memory 4 x w) tree.root
      ∙ sym (find_paddr-seek s w)

  child_kept :
      (u n j : ℕ)
      → l.level u ≡ suc (suc n)
      → j < 512
      → IsPresent (entry m' u j)
      → (l.level (addr_get (entry m' u j)) ≡ suc n)
        × (l.part (addr_get (entry m' u j)) ≡ l.part u * 512 + j)
  child_kept u n j labelled h here =
      let e = same u j (omega (arith, labelled)) h in
      rw e (tree.child u n j labelled h (rw e at here))

module _ (s : Paging) (l : Labels) (t : ℕ) (m' : Memory) (tree : IsTree s l) (plain : l.level t ≡ 0)
    (only : OnlyIn s.frames.memory t m') where
  entry-frame : SameEntries s.frames.memory l m'
  entry-frame u j labelled h =
      let ne : u ≢ t = λ e. labelled (ap l.level e ∙ plain) in
      entry_ext s.frames.memory m' u j h (λ a inside. only a (omega (arith, inside)))

  -- No translation changes.
  pub find_paddr-frame : (w : ℕ) → find_paddr (with_memory s m') w ≡ find_paddr s w
  find_paddr-frame = find_paddr_kept s l m' tree entry-frame

  module _ (bytes : IsBytes m')
      (apart : (a : ℕ) → 4096 * t ≤ a → a < 4096 * t + 4096 → Outside s.frames a) where
    frame-IsBitmap : IsBitmap (with_memory s m').frames
    frame-IsBitmap = record { size_lem = tree.bitmap.size_lem; bytes = bytes }

    pub bitmap_get-frame : (j : ℕ) → bitmap_get (with_memory s m').frames j ≡ bitmap_get s.frames j
    bitmap_get-frame j =
        bitmap_get_ext s.frames (with_memory s m').frames j tree.bitmap frame-IsBitmap refl refl
          λ a lo hi. only a (bitmap-Outside s.frames t a apart lo hi)

    pub frame-HasSupply : (n : ℕ) → HasSupply s.frames n → HasSupply (with_memory s m').frames n
    frame-HasSupply n enough = omega (
      arith,
      enough,
      count_ext (grantable s.frames) (grantable (with_memory s m').frames) (suc s.frames.max_index)
          λ j h. ground (arith, bitmap_get-frame j),
    )

    -- The tables stay a tree.
    pub frame-IsTree : IsTree (with_memory s m') l
    frame-IsTree = record {
      bitmap = frame-IsBitmap;
      small = tree.small;
      free_apart =
          λ j a h free lo hi. tree.free_apart j a h (sym (bitmap_get-frame j) ∙ free) lo hi;
      root = tree.root;
      root_level = tree.root_level;
      root_part = tree.root_part;
      table = λ u labelled.
          let was = tree.table u labelled in
          record { within = was.within; taken = bitmap_get-frame u ∙ was.taken; apart = was.apart };
      child = child_kept s l m' tree entry-frame;
    }

-- The state with frame c granted.
abbrev pub requested : Paging → Paging
requested s = record s { frames = (request s.frames).0 }

module _ (s : Paging) (l : Labels) (c : ℕ) (tree : IsTree s l) (within : c ≤ s.frames.max_index)
    (grant : IsGrant s.frames c (request s.frames)) where
  entry-requested : SameEntries s.frames.memory l (request s.frames).0.memory
  entry-requested u j labelled h =
      entry_ext s.frames.memory (request s.frames).0.memory u j h
        (λ a inside. grant.marking.confined a ((tree.table u labelled).apart a inside.0 inside.1))

  pub find_paddr-requested : (w : ℕ) → find_paddr (requested s) w ≡ find_paddr s w
  find_paddr-requested w =
      find_paddr-seek (requested s) w
      ∙ sym (find_paddr-seek (with_memory s (request s.frames).0.memory) w)
      ∙ find_paddr_kept s l (request s.frames).0.memory tree entry-requested w

  -- A frame that was free is no table.
  plain-requested : l.level c ≡ 0
  plain-requested = elim (lt-or-ge 0 (l.level c)) [
    | inl labelled ↦
        absurd (ground (arith, (tree.table c (omega (arith, labelled))).taken, grant.was_free))
    | inr none ↦ omega (arith, none)
  ]

  pub requested-IsSpare_kept : (u : ℕ) → IsSpare s l u → IsSpare (requested s) l u
  requested-IsSpare_kept u was = (
    was.0,
    (
      ground (arith, was.1.0, grant.marking.marked u),
      λ a lo hi. omega (arith, was.1.1 a lo hi, grant.marking.same_place, grant.marking.same_size),
    ),
  )

  -- The granted frame is held and no table, and the tables stay a tree.
  pub requested-IsSpare : IsSpare (requested s) l c
  requested-IsSpare = (
    plain-requested,
    (
      ground (arith, grant.marking.marked c),
      λ a lo hi.
          let out = tree.free_apart c a within grant.was_free lo hi in
          omega (arith, out, grant.marking.same_place, grant.marking.same_size),
    ),
  )

  pub requested-IsTree : IsTree (requested s) l
  requested-IsTree = record {
    bitmap = grant.marking.valid;
    small = omega (arith, tree.small, grant.marking.same_max);
    free_apart = λ j a h free lo hi.
        let was : bitmap_get s.frames j ≡ false = ground (arith, grant.marking.marked j, free) in
        let out = tree.free_apart j a (omega (arith, h, grant.marking.same_max)) was lo hi in
        omega (arith, out, grant.marking.same_place, grant.marking.same_size);
    root = tree.root;
    root_level = tree.root_level;
    root_part = tree.root_part;
    table = λ u labelled.
        let was = tree.table u labelled in
        record {
          within = omega (arith, was.within, grant.marking.same_max);
          taken = ground (arith, was.taken, grant.marking.marked u);
          apart = λ a lo hi.
              omega (arith, was.apart a lo hi, grant.marking.same_place, grant.marking.same_size);
        };
    child = child_kept s l (request s.frames).0.memory tree entry-requested;
  }
