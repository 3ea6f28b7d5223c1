-- ===== src/Kernel/Root.antt =====
-- init_pmm as a whole, and the allocator that it starts from.
use si_stultum.Base.{ℕ, suc, ◌+◌, ◌*◌, ◌/◌, ◌^◌, ◌≤◌, ◌<◌, true, false, ◌≡◌, ◌≢◌}
use si_stultum.Base.{refl, sym, ap, ◌∙◌, arith, inl, inr, ◌⊎◌, ◌==◌, if◌then◌else◌, lt-or-ge}
use mathlib.Core.Path.{subst}
use si_stultum.Frames.{Frames, bitmap_get, request}
use si_stultum.Frames.Bitmap.{IsBitmap, Outside}
use si_stultum.Frames.Copy.{memset, memset_lem}
use si_stultum.Frames.Init.{rounds}
use si_stultum.Frames.Lock.{count_ext}
use si_stultum.Frames.Request.{IsGrant}
use si_stultum.Frames.Supply.{HasSupply, grantable, request-IsGranted}
use si_stultum.PageMap.{Paging, flag_get, find_paddr, init_pml4}
use si_stultum.PageMap.Tree.{
  entry, Labels, IsTable, IsTree, IsHeld, IsSpare, find_paddr-seek, seek-absent, table_index-lt,
  bitmap_get_ext,
}
use si_stultum.PageMap.Entries.{memset-IsBytes, entry-memset_self}
use si_stultum.PageMap.Grow.{zero_absent, not_both}
use si_stultum.Kernel.Pages.{map_pages, new_root, init_pmm}
use si_stultum.Kernel.Identity.{IsIdentity, InPages, OffPages, map_pages-IsIdentity, tables_for}

-- An allocator that page tables can be built with: its bitmap is well formed and holds its own
-- frames, and n frames can be granted.
pub record IsReady (f : Frames) (n : ℕ) : Type 0 where
  pub bitmap : IsBitmap f
  pub small : f.max_index < 2 ^ 40
  pub free_apart :
      (j a : ℕ)
      → j ≤ f.max_index
      → bitmap_get f j ≡ false
      → 4096 * j ≤ a
      → a < 4096 * j + 4096
      → Outside f a
  pub supply : HasSupply f n

-- The state with an empty root table in frame r.
abbrev rooted : Paging → ℕ → Paging
rooted s r = record {
  pml4 = 4096 * r;
  frames = record (request s.frames).0 {
    memory = memset (request s.frames).0.memory (4096 * r) 0 4096;
  };
}

new_root-rooted : (s : Paging) (r : ℕ) → (request s.frames).1 ≡ 4096 * r → new_root s ≡ rooted s r
unfolding new_root init_pml4
new_root-rooted s r page = rw page refl

abbrev root_labels : ℕ → Labels
root_labels r = record { level = λ u. if u == r then 4 else 0; part = λ u. 0 }

module _ (s : Paging) (n r : ℕ) (ready : IsReady s.frames (suc n)) (within : r ≤ s.frames.max_index)
    (grant : IsGrant s.frames r (request s.frames))
    (enough : HasSupply (request s.frames).0 n) where
  rooted-IsBitmap : IsBitmap (rooted s r).frames
  rooted-IsBitmap = record {
    size_lem = grant.marking.valid.size_lem;
    bytes = memset-IsBytes _ _ 0 4096 grant.marking.valid.bytes;
  }

  bitmap_get-rooted :
      (j : ℕ) → bitmap_get (rooted s r).frames j ≡ (if r == j then true else bitmap_get s.frames j)
  bitmap_get-rooted j =
      bitmap_get_ext (request s.frames).0 (rooted s r).frames j grant.marking.valid rooted-IsBitmap
        refl refl
        (λ a lo hi. ground (
          arith,
          memset_lem (request s.frames).0.memory (4096 * r) 0 4096 a,
          ready.free_apart r a within grant.was_free,
          grant.marking.same_place,
          grant.marking.same_size,
        ))
      ∙ grant.marking.marked j

  rooted-IsTable : (u : ℕ) → (root_labels r).level u ≢ 0 → IsTable (rooted s r).frames u
  rooted-IsTable u labelled =
      let e : u ≡ r = ground arith in
      record {
        within = omega (arith, within, grant.marking.same_max);
        taken = ground (arith, bitmap_get-rooted u);
        apart = λ a lo hi.
            let out =
              ready.free_apart r a within grant.was_free (omega (arith, e)) (omega (arith, e)) in
            omega (arith, out, grant.marking.same_place, grant.marking.same_size);
      }

  rooted_empty : (j : ℕ) → j < 512 → flag_get (entry (rooted s r).frames.memory r j) 1 ≡ false
  rooted_empty j h =
      ap (λ e. flag_get e 1) (entry-memset_self (request s.frames).0.memory r j h) ∙ zero_absent

  rooted-IsTree : IsTree (rooted s r) (root_labels r)
  rooted-IsTree = record {
    bitmap = rooted-IsBitmap;
    small = omega (arith, ready.small, grant.marking.same_max);
    free_apart = λ j a h free lo hi.
        let was : bitmap_get s.frames j ≡ false = ground (arith, bitmap_get-rooted j) in
        let out = ready.free_apart j a (omega (arith, h, grant.marking.same_max)) was lo hi in
        omega (arith, out, grant.marking.same_place, grant.marking.same_size);
    root = omega arith;
    root_level = let e : 4096 * r / 4096 ≡ r = omega arith in ground arith;
    root_part = refl;
    table = rooted-IsTable;
    child = λ u k j labelled h here.
        let e : u ≡ r = ground arith in absurd (not_both _ (rw e at here) (rooted_empty j h));
  }

  find-rooted : (w : ℕ) → find_paddr (rooted s r) w ≡ 0
  find-rooted w =
      find_paddr-seek (rooted s r) w
      ∙ seek-absent (rooted s r).frames.memory 3 r w (rooted_empty _ (table_index-lt w 39))

  rooted-HasSupply : HasSupply (rooted s r).frames n
  rooted-HasSupply = omega (
    arith,
    enough,
    count_ext (grantable (request s.frames).0) (grantable (rooted s r).frames)
        (suc (request s.frames).0.max_index)
        λ j h. ground (arith, bitmap_get-rooted j, grant.marking.marked j),
  )

-- What a fresh root promises: an empty tree, in which nothing is mapped, and n frames left.
pub record IsRooted (s : Paging) (n : ℕ) (s' : Paging) : Type 0 where
  pub labels : Labels
  pub tree : IsTree s' labels
  pub empty : (w : ℕ) → find_paddr s' w ≡ 0
  pub spare : (u : ℕ) → IsHeld s.frames u → IsSpare s' labels u
  pub same_total : s'.frames.mem_total ≡ s.frames.mem_total
  pub supply : HasSupply s'.frames n

pub new_root-IsRooted : (s : Paging) (n : ℕ) → IsReady s.frames (suc n) → IsRooted s n (new_root s)
new_root-IsRooted s n ready =
    let (r, granted) = request-IsGranted s.frames n ready.bitmap ready.small ready.supply in
    subst (IsRooted s n) (sym (new_root-rooted s r (omega (arith, granted.grant.address))))
      (record {
        labels = root_labels r;
        tree = rooted-IsTree s n r ready granted.within granted.grant granted.supply;
        empty = find-rooted s n r ready granted.within granted.grant granted.supply;
        spare = λ u held. (
          ground (arith, held.0, granted.grant.was_free),
          (
            ground (
              arith,
              held.0,
              bitmap_get-rooted s n r ready granted.within granted.grant granted.supply u,
            ),
            λ a lo hi. omega (
              arith,
              held.1 a lo hi,
              granted.grant.marking.same_place,
              granted.grant.marking.same_size,
            ),
          ),
        );
        same_total = granted.grant.marking.same_total;
        supply = rooted-HasSupply s n r ready granted.within granted.grant granted.supply;
      })

-- What init_pmm promises: the tables are a tree; every page that begins below mem_total and every page of the
-- framebuffer maps to itself, and no other page below 2 ^ 48 is mapped; no held frame became a table; k frames are
-- left.
pub record IsMirror (f : Frames) (fbbase fbsize k : ℕ) (s' : Paging) : Type 0 where
  pub labels : Labels
  pub tree : IsTree s' labels
  pub mirrored :
      (w : ℕ)
      → InPages 0 (rounds f.mem_total 4096) w ⊎ InPages fbbase (rounds fbsize 4096) w
      → find_paddr s' w ≡ w / 2 ^ 12 * 2 ^ 12
  pub unmapped :
      (w : ℕ)
      → w < 2 ^ 48
      → OffPages 0 (rounds f.mem_total 4096) w
      → OffPages fbbase (rounds fbsize 4096) w
      → find_paddr s' w ≡ 0
  pub spare : (u : ℕ) → IsHeld f u → IsSpare s' labels u
  pub supply : HasSupply s'.frames k

-- The tables that init_pmm can need, with the root.
abbrev pub all_tables : (total fbbase fbsize : ℕ) → ℕ
all_tables total fbbase fbsize =
    suc (tables_for 0 (rounds total 4096) + tables_for fbbase (rounds fbsize 4096))

in-or-off : (addr n w : ℕ) → InPages addr n w ⊎ OffPages addr n w
in-or-off addr n w = elim (lt-or-ge (w / 2 ^ 12) (addr / 2 ^ 12)) [
  | inl low ↦ inr (inl low)
  | inr from ↦ elim (lt-or-ge (w / 2 ^ 12) (addr / 2 ^ 12 + n)) [
    | inl before ↦ inl (from, before)
    | inr behind ↦ inr (inr behind)
  ]
]

two_ranges :
    {s s0 s1 s2 : Paging} {fbbase fbsize i j k : ℕ}
    → (fresh : IsRooted s i s0)
    → (memory : IsIdentity s0 fresh.labels 0 (rounds s.frames.mem_total 4096) j s1)
    → 4096 * rounds s.frames.mem_total 4096 ≤ 2 ^ 48
    → IsIdentity s1 memory.labels fbbase (rounds fbsize 4096) k s2
    → IsMirror s.frames fbbase fbsize k s2
two_ranges {fbbase} {fbsize} fresh memory small framebuffer = record {
  labels = framebuffer.labels;
  tree = framebuffer.tree;
  mirrored = λ w within. elim within [
    | inl low ↦ elim (in-or-off fbbase (rounds fbsize 4096) w) [
      | inl both ↦ framebuffer.inside w both
      | inr off ↦ framebuffer.others w (omega arith) off ∙ memory.inside w low
    ]
    | inr high ↦ framebuffer.inside w high
  ];
  unmapped = λ w fits off0 off1.
      framebuffer.others w fits off1 ∙ memory.others w fits off0 ∙ fresh.empty w;
  spare = λ u taken. framebuffer.spare u (memory.spare u (fresh.spare u taken));
  supply = framebuffer.supply;
}

init_pmm_lem :
    (s : Paging) (fbbase fbsize : ℕ) (s0 : Paging)
    → s0 ≡ new_root s
    → init_pmm s fbbase fbsize
      ≡ map_pages (map_pages s0 0 (rounds s0.frames.mem_total 4096)) fbbase (rounds fbsize 4096)
unfolding init_pmm
init_pmm_lem s fbbase fbsize s0 root =
    ap (λ u. map_pages (map_pages u 0 (rounds u.frames.mem_total 4096)) fbbase (rounds fbsize 4096))
      (sym root)

-- On an allocator with as many frames that can be granted as the tables can need, and k more, where
-- memory and the framebuffer end below 2 ^ 48, init_pmm maps every page that begins below mem_total and every page of
-- the framebuffer to itself and no other page below 2 ^ 48, makes a table of no frame that was taken, and leaves k frames.
pub init_pmm-IsMirror :
    (s : Paging) (fbbase fbsize k : ℕ)
    → IsReady s.frames (all_tables s.frames.mem_total fbbase fbsize + k)
    → 4096 * rounds s.frames.mem_total 4096 ≤ 2 ^ 48
    → fbbase + 4096 * rounds fbsize 4096 ≤ 2 ^ 48
    → IsMirror s.frames fbbase fbsize k (init_pmm s fbbase fbsize)
init_pmm-IsMirror s fbbase fbsize k ready small fits =
    let n1 = rounds s.frames.mem_total 4096 in
    let n2 = rounds fbsize 4096 in
    let fresh = new_root-IsRooted s (tables_for 0 n1 + (tables_for fbbase n2 + k)) (record {
      bitmap = ready.bitmap;
      small = ready.small;
      free_apart = ready.free_apart;
      supply = omega (arith, ready.supply);
    }) in
    let memory =
      map_pages-IsIdentity (new_root s) fresh.labels 0 n1 (tables_for fbbase n2 + k) fresh.tree
        (omega (arith, small)) fresh.supply in
    let framebuffer =
      map_pages-IsIdentity (map_pages (new_root s) 0 n1) memory.labels fbbase n2 k memory.tree fits
        memory.supply in
    subst (IsMirror s.frames fbbase fbsize k)
      (sym (
        init_pmm_lem s fbbase fbsize (new_root s) refl
        ∙ ap (λ t. map_pages (map_pages (new_root s) 0 (rounds t 4096)) fbbase n2)
            fresh.same_total))
      (two_ranges fresh memory small framebuffer)
