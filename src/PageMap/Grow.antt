-- ===== src/PageMap/Grow.antt =====
-- A new table under a table of level 2 or more: what pmm_map_memory makes where an entry is absent.
use si_stultum.Base.{ℕ, zero, suc, ◌+◌, ◌*◌, ◌/◌, ◌≤◌, ◌<◌, true, false, ◌≡◌, ◌≢◌, ◌==◌}
use si_stultum.Base.{refl, sym, ap, ◌∙◌, arith, ◌⊎◌, inl, inr, Bool-cases, if◌then◌else◌, ◌&&◌}
use si_stultum.Memory.{store-IsBytes}
use si_stultum.Frames.{bitmap_get, request}
use si_stultum.Frames.Bitmap.{IsBitmap}
use si_stultum.Frames.Request.{IsGrant}
use si_stultum.Frames.Supply.{HasSupply, grantable}
use si_stultum.Frames.Lock.{count_ext}
use si_stultum.Frames.Copy.{memset, memset_lem}
use si_stultum.PageMap.{Paging, flag_get, addr_get, linked, table_index}
use si_stultum.PageMap.Entry.{linked_lem}
use si_stultum.PageMap.Tree.{
  entry, IsPresent, Labels, IsTable, IsTree, seek, seek-present, seek-absent, seek-same,
  table_index-lt, entry_lt, bitmap_get_ext,
}
use si_stultum.PageMap.Entries.{
  memset-IsBytes, entry_ext, entry-memset_self, entry-memset_ne, put_entry, entry-put_entry_self,
  entry-put_entry_ne, put_entry-outside, bitmap-Outside,
}

-- The state with a new table in frame c, which the entry i of table t leads to.
abbrev pub grown : Paging → ℕ → ℕ → ℕ → Paging
grown s t i c = record s {
  frames = record (request s.frames).0 {
    memory =
        put_entry t i (linked (entry s.frames.memory t i) (4096 * c))
          (memset (request s.frames).0.memory (4096 * c) 0 4096);
  };
}

-- The labels with the new table.
abbrev pub relabel : Labels → ℕ → ℕ → ℕ → ℕ → Labels
relabel l t i k c = record {
  level = λ u. if u == c then suc k else l.level u;
  part = λ u. if u == c then l.part t * 512 + i else l.part u;
}

pub zero_absent : flag_get 0 1 ≡ false
unfolding flag_get
zero_absent = refl

pub not_both : (e : ℕ) → IsPresent e → flag_get e 1 ≡ false → ⊥
not_both e here gone = cc

module _ (s : Paging) (l : Labels) (t k i c : ℕ) (tree : IsTree s l)
    (level : l.level t ≡ suc (suc k)) (small : i < 512)
    (absent : flag_get (entry s.frames.memory t i) 1 ≡ false) (within : c ≤ s.frames.max_index)
    (grant : IsGrant s.frames c (request s.frames)) where
  fresh : (u : ℕ) → l.level u ≢ 0 → u ≢ c
  fresh u labelled e =
      ground (arith, (tree.table u labelled).taken, grant.was_free, ap (bitmap_get s.frames) e)

  parent : t ≢ c
  parent = fresh t (omega arith)

  pub entry-grown_new : (j : ℕ) → j < 512 → entry (grown s t i c).frames.memory c j ≡ 0
  entry-grown_new j h =
      entry-put_entry_ne _ t i _ c j small h (inl (λ e. parent (sym e)))
      ∙ entry-memset_self (request s.frames).0.memory c j h

  pub entry-grown_link :
      entry (grown s t i c).frames.memory t i ≡ linked (entry s.frames.memory t i) (4096 * c)
  entry-grown_link =
      entry-put_entry_self _ t i _
        (linked_lem (entry s.frames.memory t i) (4096 * c)
          (entry_lt s.frames.memory t i tree.bitmap.bytes)).2

  pub entry-grown_other :
      (u j : ℕ)
      → l.level u ≢ 0
      → j < 512
      → (u ≢ t) ⊎ (j ≢ i)
      → entry (grown s t i c).frames.memory u j ≡ entry s.frames.memory u j
  entry-grown_other u j labelled h other =
      entry-put_entry_ne _ t i _ u j small h other
      ∙ entry-memset_ne (request s.frames).0.memory c u j h (fresh u labelled)
      ∙ entry_ext s.frames.memory (request s.frames).0.memory u j h
          (λ a inside. grant.marking.confined a ((tree.table u labelled).apart a inside.0 inside.1))

  pub link_to : addr_get (entry (grown s t i c).frames.memory t i) ≡ c
  link_to =
      ap addr_get entry-grown_link
      ∙ (let e =
            (linked_lem (entry s.frames.memory t i) (4096 * c)
              (entry_lt s.frames.memory t i tree.bitmap.bytes)).1 in
          omega (arith, e, tree.small))

  pub link-IsPresent : IsPresent (entry (grown s t i c).frames.memory t i)
  link-IsPresent =
      ap (λ e. flag_get e 1) entry-grown_link
      ∙ (linked_lem (entry s.frames.memory t i) (4096 * c)
          (entry_lt s.frames.memory t i tree.bitmap.bytes)).0

  grown-IsBitmap : IsBitmap (grown s t i c).frames
  grown-IsBitmap = record {
    size_lem = grant.marking.valid.size_lem;
    bytes = store-IsBytes 8 _ _ _ (memset-IsBytes _ _ 0 4096 grant.marking.valid.bytes);
  }

  grown_memory :
      (a : ℕ)
      → s.frames.data_addr ≤ a
      → a < s.frames.data_addr + 4 * s.frames.size
      → (grown s t i c).frames.memory a ≡ (request s.frames).0.memory a
  grown_memory a lo hi =
      put_entry-outside _ t i _ a small
        (bitmap-Outside s.frames t a (tree.table t (omega arith)).apart lo hi)
      ∙ ground (
        arith,
        memset_lem (request s.frames).0.memory (4096 * c) 0 4096 a,
        tree.free_apart c a within grant.was_free,
      )

  pub bitmap_get-grown :
      (j : ℕ)
      → bitmap_get (grown s t i c).frames j ≡ (if c == j then true else bitmap_get s.frames j)
  bitmap_get-grown j =
      bitmap_get_ext (request s.frames).0 (grown s t i c).frames j grant.marking.valid
        grown-IsBitmap refl refl
        (λ a lo hi.
          grown_memory a (omega (arith, grant.marking.same_place))
            (omega (arith, grant.marking.same_place, grant.marking.same_size)))
      ∙ grant.marking.marked j

  -- The frames left to grant are those that the request left.
  pub grown-HasSupply :
      (n : ℕ) → HasSupply (request s.frames).0 n → HasSupply (grown s t i c).frames n
  grown-HasSupply n enough = omega (
    arith,
    enough,
    count_ext (grantable (request s.frames).0) (grantable (grown s t i c).frames)
        (suc (request s.frames).0.max_index)
        λ j h. ground (arith, bitmap_get-grown j, grant.marking.marked j),
  )

  pub old_label :
      (u : ℕ)
      → l.level u ≢ 0
      → ((relabel l t i k c).level u ≡ l.level u) × ((relabel l t i k c).part u ≡ l.part u)
  old_label u labelled = let other = fresh u labelled in (ground arith, ground arith)

  grown-IsTable : (u : ℕ) → (relabel l t i k c).level u ≢ 0 → IsTable (grown s t i c).frames u
  grown-IsTable u labelled = elim (Bool-cases (u == c)) [
    | inl new ↦
        let e : u ≡ c = ground arith in
        record {
          within = omega (arith, within, e, grant.marking.same_max);
          taken = ground (arith, bitmap_get-grown u);
          apart = λ a lo hi.
              let out =
                tree.free_apart c a within grant.was_free (omega (arith, e)) (omega (arith, e)) in
              omega (arith, out, grant.marking.same_place, grant.marking.same_size);
        }
    | inr old ↦
        let was = tree.table u (rw old at labelled) in
        record {
          within = omega (arith, was.within, grant.marking.same_max);
          taken = ground (arith, bitmap_get-grown u, was.taken);
          apart = λ a lo hi.
              let out = was.apart a lo hi in
              omega (arith, out, grant.marking.same_place, grant.marking.same_size);
        }
  ]

  pub new_label :
      (x : ℕ)
      → x ≡ c
      → ((relabel l t i k c).level x ≡ suc k) × ((relabel l t i k c).part x ≡ l.part t * 512 + i)
  new_label x e = (ground arith, ground arith)

  new_child :
      (u n j x : ℕ)
      → u ≡ t
      → j ≡ i
      → x ≡ c
      → (relabel l t i k c).level u ≡ suc (suc n)
      → ((relabel l t i k c).level x ≡ suc n)
        × ((relabel l t i k c).part x ≡ (relabel l t i k c).part u * 512 + j)
  new_child u n j x u≡t j≡i x≡c labelled =
      let at_t = old_label t (omega arith) in
      let level_u = ap (relabel l t i k c).level u≡t in
      let part_u = ap (relabel l t i k c).part u≡t in
      let at_x = new_label x x≡c in
      (omega (arith, at_x, at_t, level_u), omega (arith, at_x, at_t, part_u))

  old_child :
      (u n j : ℕ)
      → (u ≢ t) ⊎ (j ≢ i)
      → l.level u ≡ suc (suc n)
      → j < 512
      → IsPresent (entry (grown s t i c).frames.memory u j)
      → ((relabel l t i k c).level (addr_get (entry (grown s t i c).frames.memory u j)) ≡ suc n)
        × ((relabel l t i k c).part (addr_get (entry (grown s t i c).frames.memory u j))
            ≡ (relabel l t i k c).part u * 512 + j)
  old_child u n j other labelled h here =
      let same = entry-grown_other u j (omega arith) h other in
      let was = tree.child u n j labelled h (rw same at here) in
      let x = addr_get (entry s.frames.memory u j) in
      let at_x = old_label x (omega (arith, was)) in
      let at_u = old_label u (omega arith) in
      rw same (omega (arith, was, at_x), omega (arith, was, at_x, at_u))

  grown_child :
      (u n j : ℕ)
      → (relabel l t i k c).level u ≡ suc (suc n)
      → j < 512
      → IsPresent (entry (grown s t i c).frames.memory u j)
      → ((relabel l t i k c).level (addr_get (entry (grown s t i c).frames.memory u j)) ≡ suc n)
        × ((relabel l t i k c).part (addr_get (entry (grown s t i c).frames.memory u j))
            ≡ (relabel l t i k c).part u * 512 + j)
  grown_child u n j labelled h here = elim (Bool-cases (u == c)) [
    | inl new ↦
        let e : u ≡ c = ground arith in
        absurd (not_both 0 (rw (e, entry-grown_new j h) at here) zero_absent)
    | inr old ↦ elim (Bool-cases ((u == t) && (j == i))) [
      | inl link ↦
          let u≡t : u ≡ t = ground arith in
          let j≡i : j ≡ i = ground arith in
          new_child u n j _ u≡t j≡i (rw (u≡t, j≡i) link_to) labelled
      | inr other ↦ old_child u n j (ground arith) (rw old at labelled) h here
    ]
  ]

  pub grown-IsTree : IsTree (grown s t i c) (relabel l t i k c)
  grown-IsTree = record {
    bitmap = grown-IsBitmap;
    small = omega (arith, tree.small, grant.marking.same_max);
    free_apart = λ j a h free lo hi.
        let was : bitmap_get s.frames j ≡ false = ground (arith, bitmap_get-grown j) in
        let out = tree.free_apart j a (omega (arith, h, grant.marking.same_max)) was lo hi in
        omega (arith, out, grant.marking.same_place, grant.marking.same_size);
    root = tree.root;
    root_level = (old_label (s.pml4 / 4096) (omega (arith, tree.root_level))).0 ∙ tree.root_level;
    root_part = (old_label (s.pml4 / 4096) (omega (arith, tree.root_level))).1 ∙ tree.root_part;
    table = grown-IsTable;
    child = grown_child;
  }

  -- Behind the new entry there is nothing yet.
  seek-grown_link :
      (n u vaddr : ℕ)
      → l.level u ≡ suc n
      → u ≡ t
      → table_index vaddr (12 + 9 * n) ≡ i
      → seek (grown s t i c).frames.memory (suc n) (4096 * u) vaddr
        ≡ seek s.frames.memory (suc n) (4096 * u) vaddr
  seek-grown_link n u vaddr labelled u≡t at_i =
      let n≡k : n ≡ suc k = omega (arith, level, ap l.level u≡t) in
      let here : IsPresent
          (entry (grown s t i c).frames.memory u (table_index vaddr (12 + 9 * n))) =
        rw (u≡t, at_i) link-IsPresent in
      let next : addr_get (entry (grown s t i c).frames.memory u (table_index vaddr (12 + 9 * n)))
          ≡ c =
        rw (u≡t, at_i) link_to in
      let gone : flag_get (entry s.frames.memory u (table_index vaddr (12 + 9 * n))) 1 ≡ false =
        rw (u≡t, at_i) absent in
      seek-present (grown s t i c).frames.memory n u vaddr here
      ∙ ap (λ x. seek (grown s t i c).frames.memory n (4096 * x) vaddr) next
      ∙ ap (λ x. seek (grown s t i c).frames.memory x (4096 * c) vaddr) n≡k
      ∙ seek-absent (grown s t i c).frames.memory k c vaddr (
          ap (λ e. flag_get e 1) (entry-grown_new _ (table_index-lt vaddr (12 + 9 * k)))
          ∙ zero_absent)
      ∙ sym (seek-absent s.frames.memory n u vaddr gone)

  entry-grown_off :
      (n u vaddr : ℕ)
      → l.level u ≡ suc n
      → ((u == t) && (table_index vaddr (12 + 9 * n) == i)) ≡ false
      → entry (grown s t i c).frames.memory u (table_index vaddr (12 + 9 * n))
        ≡ entry s.frames.memory u (table_index vaddr (12 + 9 * n))
  entry-grown_off n u vaddr labelled off =
      entry-grown_other u _ (omega arith) (table_index-lt vaddr (12 + 9 * n)) (ground arith)

  -- No translation changes: where the walk comes by the new table, it found nothing before, and
  -- finds nothing in the table.
  pub seek-grown :
      (n u vaddr : ℕ)
      → l.level u ≡ n
      → seek (grown s t i c).frames.memory n (4096 * u) vaddr
        ≡ seek s.frames.memory n (4096 * u) vaddr
  seek-grown zero u vaddr labelled = unfold seek in refl
  seek-grown (suc zero) u vaddr labelled =
      elim (Bool-cases ((u == t) && (table_index vaddr (12 + 9 * zero) == i))) [
        | inl link ↦ seek-grown_link zero u vaddr labelled (ground arith) (ground arith)
        | inr off ↦
            seek-same s.frames.memory (grown s t i c).frames.memory zero u vaddr
              (entry-grown_off zero u vaddr labelled off) (λ here. unfold seek in refl)
      ]
  seek-grown (suc (suc n)) u vaddr labelled =
      elim (Bool-cases ((u == t) && (table_index vaddr (12 + 9 * suc n) == i))) [
        | inl link ↦ seek-grown_link (suc n) u vaddr labelled (ground arith) (ground arith)
        | inr off ↦
            seek-same s.frames.memory (grown s t i c).frames.memory (suc n) u vaddr
              (entry-grown_off (suc n) u vaddr labelled off)
              (λ here.
                seek-grown (suc n) _ vaddr
                  (tree.child u n _ labelled (table_index-lt vaddr (12 + 9 * suc n)) here).0)
      ]
