-- ===== src/PageMap/Descend.antt =====
-- One upper level of pmm_map_memory on a tree of tables.
use si_stultum.Base.{ℕ, zero, suc, ◌+◌, ◌*◌, ◌≤◌, ◌<◌, false, ◌≡◌, ◌≢◌}
use si_stultum.Base.{◌==◌, ◌&&◌, refl, sym, arith, inl, inr, Bool-cases, if◌then◌else◌}
use mathlib.Core.Path.{subst}
use si_stultum.Memory.{Memory}
use si_stultum.Frames.{request}
use si_stultum.Frames.Request.{IsGrant}
use si_stultum.Frames.Supply.{HasSupply, request-IsGranted}
use si_stultum.PageMap.{Paging, flag_get, addr_get, table_index, descend}
use si_stultum.PageMap.Tree.{
  entry, IsPresent, IsSpare, Labels, IsTree, seek, table_index-lt, addr_get-whole,
}
use si_stultum.PageMap.Grow.{
  grown, relabel, zero_absent, entry-grown_new, entry-grown_other, grown-IsTree, seek-grown,
  link_to, link-IsPresent, old_label, new_label, not_both, bitmap_get-grown, grown-HasSupply,
}

-- The tables that are missing on the way to an address, from the table at `page` of level k + 1.
unfoldable pub missing : Memory → ℕ → ℕ → ℕ → ℕ
missing m zero t vaddr = 0
missing m (suc k) t vaddr =
    if flag_get (entry m t (table_index vaddr (12 + 9 * suc k))) 1
    then missing m k (addr_get (entry m t (table_index vaddr (12 + 9 * suc k)))) vaddr
    else suc k

-- What one level owes, from table t of level k + 2: it leads to a table `child` of the level below, for
-- the address's part; nothing that was there changes, no translation changes, and frames are used for
-- missing tables alone.
pub record IsDescent (s : Paging) (l : Labels) (t k vaddr n : ℕ) (out : Paging × ℕ) : Type 0 where
  pub labels : Labels
  pub child : ℕ
  pub page_lem : out.1 ≡ 4096 * child
  pub tree : IsTree out.0 labels
  pub same_root : out.0.pml4 ≡ s.pml4
  pub same_total : out.0.frames.mem_total ≡ s.frames.mem_total
  pub old_label :
      (u : ℕ) → l.level u ≢ 0 → (labels.level u ≡ l.level u) × (labels.part u ≡ l.part u)
  pub kept :
      (u j : ℕ)
      → l.level u ≢ 0
      → j < 512
      → IsPresent (entry s.frames.memory u j)
      → entry out.0.frames.memory u j ≡ entry s.frames.memory u j
  pub here : IsPresent (entry out.0.frames.memory t (table_index vaddr (12 + 9 * suc k)))
  pub leads : addr_get (entry out.0.frames.memory t (table_index vaddr (12 + 9 * suc k))) ≡ child
  pub spare : (u : ℕ) → IsSpare s l u → IsSpare out.0 labels u
  pub child_level : labels.level child ≡ suc k
  pub child_part : labels.part child ≡ l.part t * 512 + table_index vaddr (12 + 9 * suc k)
  pub same :
      (w u level : ℕ)
      → l.level u ≡ level
      → seek out.0.frames.memory level (4096 * u) w ≡ seek s.frames.memory level (4096 * u) w
  pub supply : HasSupply out.0.frames (missing out.0.frames.memory k child vaddr + n)

descend_here :
    (s : Paging) (t i : ℕ)
    → IsPresent (entry s.frames.memory t i)
    → descend s (4096 * t) i ≡ (s, 4096 * addr_get (entry s.frames.memory t i))
unfolding descend
descend_here s t i present = rw (present, addr_get-whole (entry s.frames.memory t i)) refl

descend_gone :
    (s : Paging) (t i c : ℕ)
    → flag_get (entry s.frames.memory t i) 1 ≡ false
    → (request s.frames).1 ≡ 4096 * c
    → descend s (4096 * t) i ≡ (grown s t i c, 4096 * c)
unfolding descend
descend_gone s t i c absent page = rw (absent, page) refl

module _ (s : Paging) (l : Labels) (t k vaddr n : ℕ) (tree : IsTree s l)
    (level : l.level t ≡ suc (suc k))
    (supply : HasSupply s.frames (missing s.frames.memory (suc k) t vaddr + n)) where
  descend-present :
      IsPresent (entry s.frames.memory t (table_index vaddr (12 + 9 * suc k)))
      → IsDescent s l t k vaddr n
          (s, 4096 * addr_get (entry s.frames.memory t (table_index vaddr (12 + 9 * suc k))))
  unfolding missing
  descend-present present =
      let i = table_index vaddr (12 + 9 * suc k) in
      let below = tree.child t k i level (table_index-lt vaddr (12 + 9 * suc k)) present in
      record {
        labels = l;
        child = addr_get (entry s.frames.memory t i);
        page_lem = refl;
        tree = tree;
        same_root = refl;
        same_total = refl;
        old_label = λ u labelled. (refl, refl);
        kept = λ u j labelled h here. refl;
        here = present;
        leads = refl;
        spare = λ u was. was;
        child_level = below.0;
        child_part = below.1;
        same = λ w u level labelled. refl;
        supply = rw present at supply;
      }

  missing_new :
      (m : Memory) (c k : ℕ) → ((j : ℕ) → j < 512 → entry m c j ≡ 0) → missing m k c vaddr ≡ k
  unfolding missing
  missing_new m c zero empty = refl
  missing_new m c (suc k) empty =
      rw (empty _ (table_index-lt vaddr (12 + 9 * suc k)), zero_absent) refl

  descend-absent :
      flag_get (entry s.frames.memory t (table_index vaddr (12 + 9 * suc k))) 1 ≡ false
      → (c : ℕ) → c ≤ s.frames.max_index
      → IsGrant s.frames c (request s.frames)
      → HasSupply (request s.frames).0 (k + n)
      → IsDescent s l t k vaddr n (grown s t (table_index vaddr (12 + 9 * suc k)) c, 4096 * c)
  descend-absent absent c within grant enough =
      let i = table_index vaddr (12 + 9 * suc k) in
      let small = table_index-lt vaddr (12 + 9 * suc k) in
      record {
        labels = relabel l t i k c;
        child = c;
        page_lem = refl;
        tree = grown-IsTree s l t k i c tree level small absent within grant;
        same_root = refl;
        same_total = grant.marking.same_total;
        old_label = old_label s l t k i c tree level small absent within grant;
        kept = λ u j labelled h here. elim (Bool-cases ((u == t) && (j == i))) [
          | inl link ↦
              let u≡t : u ≡ t = ground arith in
              let j≡i : j ≡ i = ground arith in absurd (not_both _ (rw (u≡t, j≡i) at here) absent)
          | inr other ↦
              entry-grown_other s l t k i c tree level small absent within grant u j labelled h
                (ground arith)
        ];
        here = link-IsPresent s l t k i c tree level small absent within grant;
        leads = link_to s l t k i c tree level small absent within grant;
        spare = λ u was. (
          ground (arith, was.0, was.1.0, grant.was_free),
          (
            ground (
              arith,
              was.1.0,
              bitmap_get-grown s l t k i c tree level small absent within grant u,
            ),
            λ a lo hi.
                omega (arith, was.1.1 a lo hi, grant.marking.same_place, grant.marking.same_size),
          ),
        );
        child_level = (new_label s l t k i c tree level small absent within grant c refl).0;
        child_part = (new_label s l t k i c tree level small absent within grant c refl).1;
        same = λ w u level' labelled.
            seek-grown s l t k i c tree level small absent within grant level' u w labelled;
        supply =
            rw
              (missing_new _ c k (entry-grown_new s l t k i c tree level small absent within grant))
              (grown-HasSupply s l t k i c tree level small absent within grant (k + n) enough);
      }

  -- One level of pmm_map_memory meets its contract.
  pub descend-IsDescent :
      IsDescent s l t k vaddr n (descend s (4096 * t) (table_index vaddr (12 + 9 * suc k)))
  unfolding missing
  descend-IsDescent =
      elim (Bool-cases
        (flag_get (entry s.frames.memory t (table_index vaddr (12 + 9 * suc k))) 1)) [
          | inl present ↦
              subst (IsDescent s l t k vaddr n) (sym (descend_here s t _ present))
                (descend-present present)
          | inr absent ↦
              let enough : HasSupply s.frames (suc k + n) = rw absent at supply in
              let (c, granted) =
                request-IsGranted s.frames (k + n) tree.bitmap tree.small (omega (arith, enough)) in
              subst (IsDescent s l t k vaddr n)
                (sym (descend_gone s t _ c absent (omega (arith, granted.grant.address))))
                (descend-absent absent c granted.within granted.grant granted.supply)
        ]
