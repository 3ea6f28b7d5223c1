-- ===== src/Kernel/Identity.antt =====
-- init_pmm: the pages of a range map to themselves.
use si_stultum.Base.{ℕ, zero, suc, ◌+◌, ◌*◌, ◌/◌, ◌^◌, ◌≤◌, ◌<◌, ◌≡◌, ◌≢◌}
use si_stultum.Base.{
  refl, sym, ap, ◌∙◌, arith, inl, inr, ◌⊎◌, ◌==◌, Bool-cases, if◌then◌else◌, add64,
}
use si_stultum.Memory.{Memory}
use si_stultum.Frames.Supply.{HasSupply}
use si_stultum.PageMap.{Paging, flag_get, addr_get, table_index, map_memory, find_paddr, follow}
use si_stultum.PageMap.Tree.{entry, Labels, IsTree, IsSpare, table_index_lem}
use si_stultum.PageMap.Descend.{missing}
use si_stultum.PageMap.Map.{IsMapped, map_memory-IsMapped}
use si_stultum.Kernel.Pages.{map_pages}

-- The tables that two addresses do not share, below a table of level k + 1 that they share.
unfoldable pub unshared : ℕ → ℕ → ℕ → ℕ
unshared zero v w = 0
unshared (suc k) v w =
    if table_index w (12 + 9 * suc k) == table_index v (12 + 9 * suc k)
    then unshared k v w
    else suc k

pub missing-le : (m : Memory) (k t w : ℕ) → missing m k t w ≤ k
unfolding missing
missing-le m zero t w = omega arith
missing-le m (suc k) t w =
    ground (arith, missing-le m k (addr_get (entry m t (table_index w (12 + 9 * suc k)))) w)

-- Where no table is missing for one address, at most the unshared ones are for another.
missing-unshared :
    (m : Memory) (k t v w : ℕ) → missing m k t v ≡ 0 → missing m k t w ≤ unshared k v w
unfolding missing unshared
missing-unshared m zero t v w full = omega arith
missing-unshared m (suc k) t v w full =
    elim (Bool-cases (table_index w (12 + 9 * suc k) == table_index v (12 + 9 * suc k))) [
      | inl shared ↦
          let e : table_index w (12 + 9 * suc k) ≡ table_index v (12 + 9 * suc k) = ground arith in
          elim (Bool-cases (flag_get (entry m t (table_index v (12 + 9 * suc k))) 1)) [
            | inl here ↦
                rw (shared, e, here)
                  (missing-unshared m k (addr_get (entry m t (table_index v (12 + 9 * suc k)))) v w
                    (rw here at full))
            | inr gone ↦ absurd (omega (arith, rw gone at full))
          ]
      | inr apart ↦ rw apart (missing-le m (suc k) t w)
    ]

-- The tables that a range of n pages behind a mapped one can need.
unfoldable pub tables : ℕ → ℕ → ℕ
tables addr zero = 0
tables addr (suc n) = unshared 3 addr (addr + 4096) + tables (addr + 4096) n

-- The walk of pmm_find_paddr by the four indices of the address.
abbrev by_index : Memory → (root i3 i2 i1 i0 : ℕ) → ℕ
by_index m root i3 i2 i1 i0 =
    follow m root i3 λ pdp. follow m pdp i2 λ pd. follow m pd i1 λ pt. follow m pt i0 λ page. page

find_paddr-by_index :
    (s : Paging) (v : ℕ)
    → find_paddr s v
      ≡ by_index s.frames.memory s.pml4
          (table_index v 39)
          (table_index v 30)
          (table_index v 21)
          (table_index v 12)
unfolding find_paddr
find_paddr-by_index s v = refl

-- The addresses of a page translate alike.
pub find_paddr-page :
    (s : Paging) (v w : ℕ) → v / 2 ^ 12 ≡ w / 2 ^ 12 → find_paddr s v ≡ find_paddr s w
find_paddr-page s v w page =
    let m = s.frames.memory in
    find_paddr-by_index s v
    ∙ ap (λ i. by_index m s.pml4 i (table_index v 30) (table_index v 21) (table_index v 12))
        (omega (arith, page, table_index_lem v 39, table_index_lem w 39))
    ∙ ap (λ i. by_index m s.pml4 (table_index w 39) i (table_index v 21) (table_index v 12))
        (omega (arith, page, table_index_lem v 30, table_index_lem w 30))
    ∙ ap (λ i. by_index m s.pml4 (table_index w 39) (table_index w 30) i (table_index v 12))
        (omega (arith, page, table_index_lem v 21, table_index_lem w 21))
    ∙ ap (λ i. by_index m s.pml4 (table_index w 39) (table_index w 30) (table_index w 21) i)
        (omega (arith, page, table_index_lem v 12, table_index_lem w 12))
    ∙ sym (find_paddr-by_index s w)

-- The page of an address lies in the range of n pages from that of `addr`, or outside it.
abbrev pub InPages : ℕ → ℕ → ℕ → Type 0
InPages addr n w = (addr / 2 ^ 12 ≤ w / 2 ^ 12) × (w / 2 ^ 12 < addr / 2 ^ 12 + n)

abbrev pub OffPages : ℕ → ℕ → ℕ → Type 0
OffPages addr n w = (w / 2 ^ 12 < addr / 2 ^ 12) ⊎ (addr / 2 ^ 12 + n ≤ w / 2 ^ 12)

-- What a loop over n pages from `addr` promises: the tables are a tree again, each page of the range
-- maps to itself, every other page translates as before, and k frames are left.
pub record IsIdentity (s : Paging) (l : Labels) (addr n k : ℕ) (s' : Paging) : Type 0 where
  pub labels : Labels
  pub tree : IsTree s' labels
  pub inside : (w : ℕ) → InPages addr n w → find_paddr s' w ≡ w / 2 ^ 12 * 2 ^ 12
  pub others : (w : ℕ) → w < 2 ^ 48 → OffPages addr n w → find_paddr s' w ≡ find_paddr s w
  pub spare : (u : ℕ) → IsSpare s l u → IsSpare s' labels u
  pub same_root : s'.pml4 ≡ s.pml4
  pub same_total : s'.frames.mem_total ≡ s.frames.mem_total
  pub supply : HasSupply s'.frames k

none-IsIdentity :
    (s : Paging) (l : Labels) (addr k : ℕ)
    → IsTree s l
    → HasSupply s.frames k
    → IsIdentity s l addr 0 k s
none-IsIdentity s l addr k tree supply = record {
  labels = l;
  tree = tree;
  inside = λ w inside. absurd (omega arith);
  others = λ w small off. refl;
  spare = λ u was. was;
  same_root = refl;
  same_total = refl;
  supply = supply;
}

-- A page, and the range behind it.
cons-IsIdentity :
    {s s1 s' : Paging} {l : Labels} {addr n j k : ℕ}
    → addr + 4096 * suc n ≤ 2 ^ 48
    → (one : IsMapped s l addr addr j s1) → IsIdentity s1 one.labels (addr + 4096) n k s'
    → IsIdentity s l addr (suc n) k s'
cons-IsIdentity {s} {s1} {s'} {addr} {n} fits one rest = record {
  labels = rest.labels;
  tree = rest.tree;
  inside = λ w within. elim (Bool-cases (w / 2 ^ 12 == addr / 2 ^ 12)) [
    | inl first ↦
        let e : w / 2 ^ 12 ≡ addr / 2 ^ 12 = ground arith in
        rest.others w (omega arith) (omega arith)
        ∙ find_paddr-page s1 w addr e
        ∙ one.mapped
        ∙ omega arith
    | inr later ↦
        let ne : w / 2 ^ 12 ≢ addr / 2 ^ 12 = ground arith in
        rest.inside w (omega arith, omega arith)
  ];
  others = λ w small off. rest.others w small (omega arith) ∙ one.others w (omega arith);
  spare = λ u was. rest.spare u (one.spare u was);
  same_root = rest.same_root ∙ one.same_root;
  same_total = rest.same_total ∙ one.same_total;
  supply = rest.supply;
}

range_behind :
    (s : Paging) (l : Labels) (prev addr n k : ℕ)
    → IsTree s l
    → prev + 4096 ≡ addr
    → addr + 4096 * n ≤ 2 ^ 48
    → missing s.frames.memory 3 (s.pml4 / 4096) prev ≡ 0
    → HasSupply s.frames (tables prev n + k)
    → IsIdentity s l addr n k (map_pages s addr n)
unfolding map_pages tables
range_behind s l prev addr zero k tree next fits full supply =
    none-IsIdentity s l addr k tree (omega arith)
range_behind s l prev addr (suc n) k tree next fits full supply =
    let few = missing-unshared s.frames.memory 3 (s.pml4 / 4096) prev addr full in
    let same : tables (prev + 4096) n ≡ tables addr n = ap (λ a. tables a n) next in
    let here : unshared 3 prev (prev + 4096) ≡ unshared 3 prev addr = ap (unshared 3 prev) next in
    let one =
      map_memory-IsMapped s l addr addr (tables addr n + k) tree
        (omega (arith, few, supply, same, here)) in
    let step : add64 addr 4096 ≡ addr + 4096 = omega arith in
    rw step (
      cons-IsIdentity fits one (
        range_behind (map_memory s addr addr) one.labels addr (addr + 4096) n k one.tree refl
          (omega arith) one.complete one.supply))

-- The tables for a range of n pages: at most three for the first page, and the unshared ones behind.
abbrev pub tables_for : ℕ → ℕ → ℕ
tables_for addr zero = 0
tables_for addr (suc n) = 3 + tables addr n

-- On a tree of tables, with as many frames that can be granted as the range can need tables, and k
-- more, a loop of init_pmm over n pages below 2 ^ 48 maps each of them to itself, changes no other
-- translation, and leaves k frames.
pub map_pages-IsIdentity :
    (s : Paging) (l : Labels) (addr n k : ℕ)
    → IsTree s l
    → addr + 4096 * n ≤ 2 ^ 48
    → HasSupply s.frames (tables_for addr n + k)
    → IsIdentity s l addr n k (map_pages s addr n)
unfolding map_pages
map_pages-IsIdentity s l addr zero k tree fits supply =
    none-IsIdentity s l addr k tree (omega arith)
map_pages-IsIdentity s l addr (suc n) k tree fits supply =
    let few = missing-le s.frames.memory 3 (s.pml4 / 4096) addr in
    let one =
      map_memory-IsMapped s l addr addr (tables addr n + k) tree (omega (arith, few, supply)) in
    let step : add64 addr 4096 ≡ addr + 4096 = omega arith in
    rw step (
      cons-IsIdentity fits one (
        range_behind (map_memory s addr addr) one.labels addr (addr + 4096) n k one.tree refl
          (omega arith) one.complete one.supply))

unshared_bound :
    (a : ℕ)
    → unshared 3 a (a + 4096) + a / 2 ^ 21 + a / 2 ^ 30 + a / 2 ^ 39
      ≤ (a + 4096) / 2 ^ 21 + (a + 4096) / 2 ^ 30 + (a + 4096) / 2 ^ 39
unfolding unshared
unshared_bound a = ground (
  arith,
  table_index_lem a 39,
  table_index_lem (a + 4096) 39,
  table_index_lem a 30,
  table_index_lem (a + 4096) 30,
  table_index_lem a 21,
  table_index_lem (a + 4096) 21,
)

-- A range behind a mapped page needs at most one table for each boundary of 2 MiB, of 1 GiB and of
-- 512 GiB that it crosses.
pub tables_bound :
    (a n : ℕ)
    → tables a n + a / 2 ^ 21 + a / 2 ^ 30 + a / 2 ^ 39
      ≤ (a + 4096 * n) / 2 ^ 21 + (a + 4096 * n) / 2 ^ 30 + (a + 4096 * n) / 2 ^ 39
unfolding tables
tables_bound a zero = omega arith
tables_bound a (suc n) = omega (arith, unshared_bound a, tables_bound (a + 4096) n)
