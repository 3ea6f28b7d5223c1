-- ===== src/PageMap/Map.antt =====
-- pmm_map_memory and pmm_find_paddr on a tree of tables.
use si_stultum.Base.{ℕ, suc, ◌+◌, ◌*◌, ◌/◌, ◌%◌, ◌^◌, ◌≡◌, ◌≢◌}
use si_stultum.Base.{refl, sym, ap, ◌∙◌, arith, inl}
use mathlib.Core.Path.{subst}
use si_stultum.Memory.{Memory}
use si_stultum.Frames.Supply.{HasSupply}
use si_stultum.PageMap.{Paging, addr_get, table_index, descend, link, map_memory, find_paddr}
use si_stultum.PageMap.Tree.{
  entry, IsPresent, IsSpare, Labels, IsTree, seek, seek-present, find_paddr-seek, table_index-lt,
  table_index_lem,
}
use si_stultum.PageMap.Descend.{missing, IsDescent, descend-IsDescent}
use si_stultum.PageMap.Link.{
  number, linked_page, link-linked_page, linked-IsPresent, linked_number, entry-linked_other,
  linked-IsTree, bitmap_get-linked, linked-HasSupply, seek-linked,
}

-- The number of the page of an address: digits 12 to 47.
abbrev pub page_number : ℕ → ℕ
page_number vaddr = vaddr / 2 ^ 12 % 2 ^ 36

pub number-page_number : (vaddr : ℕ) → number 4 0 vaddr ≡ page_number vaddr
unfolding number
number-page_number vaddr = omega (
  arith,
  table_index_lem vaddr 39,
  table_index_lem vaddr 30,
  table_index_lem vaddr 21,
  table_index_lem vaddr 12,
)

-- What pmm_map_memory promises, with n frames to spare beyond the missing tables: the tables are a
-- tree again, a held frame that is no table stays one, the address translates to its page frame, no table is missing for it, every other page
-- translates as before, and the root and the total stay.
pub record IsMapped (s : Paging) (l : Labels) (vaddr paddr n : ℕ) (s' : Paging) : Type 0 where
  pub labels : Labels
  pub tree : IsTree s' labels
  pub mapped : find_paddr s' vaddr ≡ paddr / 2 ^ 12 % 2 ^ 40 * 2 ^ 12
  pub others : (w : ℕ) → page_number w ≢ page_number vaddr → find_paddr s' w ≡ find_paddr s w
  pub spare : (u : ℕ) → IsSpare s l u → IsSpare s' labels u
  pub complete : missing s'.frames.memory 3 (s'.pml4 / 4096) vaddr ≡ 0
  pub same_root : s'.pml4 ≡ s.pml4
  pub same_total : s'.frames.mem_total ≡ s.frames.mem_total
  pub supply : HasSupply s'.frames n

-- pmm_map_memory from the last table on, and from each table above it.
abbrev from_pt : Paging → ℕ → ℕ → ℕ → Paging
from_pt s pt vaddr paddr = link s pt (table_index vaddr 12) paddr

abbrev from_pd : Paging → ℕ → ℕ → ℕ → Paging
from_pd s pd vaddr paddr =
    from_pt (descend s pd (table_index vaddr 21)).0 (descend s pd (table_index vaddr 21)).1 vaddr
      paddr

abbrev from_pdp : Paging → ℕ → ℕ → ℕ → Paging
from_pdp s pdp vaddr paddr =
    from_pd (descend s pdp (table_index vaddr 30)).0 (descend s pdp (table_index vaddr 30)).1 vaddr
      paddr

abbrev from_root : Paging → ℕ → ℕ → ℕ → Paging
from_root s root vaddr paddr =
    from_pdp (descend s root (table_index vaddr 39)).0 (descend s root (table_index vaddr 39)).1
      vaddr paddr

map_memory-from_root :
    (s : Paging) (vaddr paddr : ℕ) → map_memory s vaddr paddr ≡ from_root s s.pml4 vaddr paddr
unfolding map_memory
map_memory-from_root s vaddr paddr = refl

-- The walk follows an entry.
seek-leads :
    (m : Memory) (k t c vaddr : ℕ)
    → IsPresent (entry m t (table_index vaddr (12 + 9 * k)))
    → addr_get (entry m t (table_index vaddr (12 + 9 * k))) ≡ c
    → seek m (suc k) (4096 * t) vaddr ≡ seek m k (4096 * c) vaddr
seek-leads m k t c vaddr here leads =
    seek-present m k t vaddr here ∙ ap (λ x. seek m k (4096 * x) vaddr) leads

-- An entry on the way: it is present and leads to the next table.
record IsLink (m : Memory) (t k vaddr c : ℕ) : Type 0 where
  here : IsPresent (entry m t (table_index vaddr (12 + 9 * k)))
  leads : addr_get (entry m t (table_index vaddr (12 + 9 * k))) ≡ c

same-IsLink :
    {m m' : Memory} {t k vaddr c : ℕ}
    → entry m' t (table_index vaddr (12 + 9 * k)) ≡ entry m t (table_index vaddr (12 + 9 * k))
    → IsLink m t k vaddr c
    → IsLink m' t k vaddr c
same-IsLink e link = record { here = rw e link.here; leads = rw e link.leads }

-- The four levels put together.
module _ (s : Paging) (l : Labels) (vaddr paddr n r : ℕ) (o1 o2 o3 : Paging × ℕ) (tree : IsTree s l)
    (root : 4096 * r ≡ s.pml4) (d1 : IsDescent s l r 2 vaddr n o1)
    (d2 : IsDescent o1.0 d1.labels d1.child 1 vaddr n o2)
    (d3 : IsDescent o2.0 d2.labels d2.child 0 vaddr n o3) where
  abbrev done : Paging
  done = linked_page o3.0 d3.child (table_index vaddr 12) paddr

  root_number : r ≡ s.pml4 / 4096
  root_number = omega (arith, root)

  level_0 : l.level r ≡ 4
  level_0 = ap l.level root_number ∙ tree.root_level

  root_1 : (d1.labels.level r ≡ 4) × (d1.labels.part r ≡ 0)
  root_1 =
      let kept = d1.old_label r (omega (arith, level_0)) in
      (kept.0 ∙ level_0, kept.1 ∙ ap l.part root_number ∙ tree.root_part)

  root_2 : (d2.labels.level r ≡ 4) × (d2.labels.part r ≡ 0)
  root_2 =
      let kept = d2.old_label r (omega (arith, root_1.0)) in (kept.0 ∙ root_1.0, kept.1 ∙ root_1.1)

  root_3 : (d3.labels.level r ≡ 4) × (d3.labels.part r ≡ 0)
  root_3 =
      let kept = d3.old_label r (omega (arith, root_2.0)) in (kept.0 ∙ root_2.0, kept.1 ∙ root_2.1)

  child1_2 : d2.labels.level d1.child ≡ 3
  child1_2 = (d2.old_label d1.child (omega (arith, d1.child_level))).0 ∙ d1.child_level

  child1_3 : d3.labels.level d1.child ≡ 3
  child1_3 = (d3.old_label d1.child (omega (arith, child1_2))).0 ∙ child1_2

  child2_3 : d3.labels.level d2.child ≡ 2
  child2_3 = (d3.old_label d2.child (omega (arith, d2.child_level))).0 ∙ d2.child_level

  -- An entry of a table of level 2 or more stays in the last step.
  stays :
      (t k c n : ℕ)
      → d3.labels.level t ≡ suc (suc n)
      → IsLink o3.0.frames.memory t k vaddr c
      → IsLink done.frames.memory t k vaddr c
  stays t k c n labelled link =
      same-IsLink
        (entry-linked_other o3.0 d3.labels d3.child (table_index vaddr 12) paddr d3.tree
          d3.child_level (table_index-lt vaddr 12) t _ (table_index-lt vaddr (12 + 9 * k))
          (inl λ e. omega (arith, d3.child_level, labelled, ap d3.labels.level e)))
        link

  third-IsLink : IsLink done.frames.memory r 3 vaddr d1.child
  third-IsLink =
      let at_1 : IsLink o1.0.frames.memory r 3 vaddr d1.child = record {
        here = d1.here;
        leads = d1.leads;
      } in
      let at_2 : IsLink o2.0.frames.memory r 3 vaddr d1.child =
        same-IsLink (d2.kept r _ (omega (arith, root_1.0)) (table_index-lt vaddr 39) d1.here)
          at_1 in
      stays r 3 d1.child 2 root_3.0 (
        same-IsLink (d3.kept r _ (omega (arith, root_2.0)) (table_index-lt vaddr 39) at_2.here)
          at_2)

  second-IsLink : IsLink done.frames.memory d1.child 2 vaddr d2.child
  second-IsLink =
      let at_2 : IsLink o2.0.frames.memory d1.child 2 vaddr d2.child = record {
        here = d2.here;
        leads = d2.leads;
      } in
      stays d1.child 2 d2.child 1 child1_3 (
        same-IsLink (d3.kept d1.child _ (omega (arith, child1_2)) (table_index-lt vaddr 30) d2.here)
          at_2)

  first-IsLink : IsLink done.frames.memory d2.child 1 vaddr d3.child
  first-IsLink = stays d2.child 1 d3.child 0 child2_3 (record { here = d3.here; leads = d3.leads })

  same_pml4 : done.pml4 ≡ s.pml4
  same_pml4 = d3.same_root ∙ d2.same_root ∙ d1.same_root

  find-done : (w : ℕ) → find_paddr done w ≡ seek done.frames.memory 4 (4096 * r) w
  find-done w =
      find_paddr-seek done w ∙ ap (λ x. seek done.frames.memory 4 x w) (same_pml4 ∙ sym root)

  found : find_paddr done vaddr ≡ paddr / 2 ^ 12 % 2 ^ 40 * 2 ^ 12
  found =
      find-done vaddr
      ∙ seek-leads done.frames.memory 3 r d1.child vaddr third-IsLink.here third-IsLink.leads
      ∙ seek-leads done.frames.memory 2 d1.child d2.child vaddr second-IsLink.here
          second-IsLink.leads
      ∙ seek-leads done.frames.memory 1 d2.child d3.child vaddr first-IsLink.here first-IsLink.leads
      ∙ seek-leads done.frames.memory 0 d3.child (paddr / 2 ^ 12 % 2 ^ 40) vaddr
          (linked-IsPresent o3.0 d3.labels d3.child (table_index vaddr 12) paddr d3.tree
            d3.child_level (table_index-lt vaddr 12))
          (linked_number o3.0 d3.labels d3.child (table_index vaddr 12) paddr d3.tree d3.child_level
            (table_index-lt vaddr 12))
      ∙ unfold seek in omega arith

  last_part : d3.labels.part d3.child * 512 + table_index vaddr 12 ≡ number 4 0 vaddr
  unfolding number
  last_part =
      omega
        (arith, d3.child_part, d2.child_part, d1.child_part, ap l.part root_number ∙ tree.root_part)

  others-done : (w : ℕ) → page_number w ≢ page_number vaddr → find_paddr done w ≡ find_paddr s w
  others-done w other =
      find-done w
      ∙ seek-linked o3.0 d3.labels d3.child (table_index vaddr 12) paddr d3.tree d3.child_level
          (table_index-lt vaddr 12) 4 r w root_3.0
          (λ e. other (
            sym (number-page_number w)
            ∙ ap (λ p. number 4 p w) (sym root_3.1)
            ∙ e
            ∙ last_part
            ∙ number-page_number vaddr))
      ∙ d3.same w r 4 root_2.0
      ∙ d2.same w r 4 root_1.0
      ∙ d1.same w r 4 level_0
      ∙ ap (λ x. seek s.frames.memory 4 x w) root
      ∙ sym (find_paddr-seek s w)

  complete_done : missing done.frames.memory 3 (done.pml4 / 4096) vaddr ≡ 0
  unfolding missing
  complete_done = rw (
    same_pml4,
    ← root_number,
    third-IsLink.here,
    third-IsLink.leads,
    second-IsLink.here,
    second-IsLink.leads,
    first-IsLink.here,
  )

  linked-IsMapped : IsMapped s l vaddr paddr n done
  unfolding missing
  linked-IsMapped = record {
    labels = d3.labels;
    tree =
        linked-IsTree o3.0 d3.labels d3.child (table_index vaddr 12) paddr d3.tree d3.child_level
          (table_index-lt vaddr 12);
    mapped = found;
    others = others-done;
    spare = λ u was.
        let still = d3.spare u (d2.spare u (d1.spare u was)) in
        (
          still.0,
          (
            bitmap_get-linked o3.0 d3.labels d3.child (table_index vaddr 12) paddr d3.tree
                  d3.child_level (table_index-lt vaddr 12) u
                ∙ still.1.0,
            still.1.1,
          ),
        );
    complete = complete_done;
    same_root = same_pml4;
    same_total = d3.same_total ∙ d2.same_total ∙ d1.same_total;
    supply =
        linked-HasSupply o3.0 d3.labels d3.child (table_index vaddr 12) paddr d3.tree d3.child_level
          (table_index-lt vaddr 12) n (omega (arith, d3.supply));
  }

-- On a tree of tables, with at least as many frames that can be granted as tables are missing for the
-- address, and n more, pmm_map_memory keeps the tables a tree, maps the address's page to the frame of
-- the physical address, leaves the translation of every other page as it was, and leaves n frames.
pub map_memory-IsMapped :
    (s : Paging) (l : Labels) (vaddr paddr n : ℕ)
    → IsTree s l
    → HasSupply s.frames (missing s.frames.memory 3 (s.pml4 / 4096) vaddr + n)
    → IsMapped s l vaddr paddr n (map_memory s vaddr paddr)
map_memory-IsMapped s l vaddr paddr n tree supply =
    let r = s.pml4 / 4096 in
    let d1 = descend-IsDescent s l r 2 vaddr n tree tree.root_level supply in
    let o1 = descend s (4096 * r) (table_index vaddr 39) in
    let d2 = descend-IsDescent o1.0 d1.labels d1.child 1 vaddr n d1.tree d1.child_level d1.supply in
    let o2 = descend o1.0 (4096 * d1.child) (table_index vaddr 30) in
    let d3 = descend-IsDescent o2.0 d2.labels d2.child 0 vaddr n d2.tree d2.child_level d2.supply in
    let o3 = descend o2.0 (4096 * d2.child) (table_index vaddr 21) in
    subst (IsMapped s l vaddr paddr n)
      (sym (
        map_memory-from_root s vaddr paddr
        ∙ ap (λ x. from_root s x vaddr paddr) (sym tree.root)
        ∙ ap (λ x. from_pdp o1.0 x vaddr paddr) d1.page_lem
        ∙ ap (λ x. from_pd o2.0 x vaddr paddr) d2.page_lem
        ∙ ap (λ x. from_pt o3.0 x vaddr paddr) d3.page_lem
        ∙ link-linked_page o3.0 d3.child (table_index vaddr 12) paddr))
      (linked-IsMapped s l vaddr paddr n r o1 o2 o3 tree tree.root d1 d2 d3)
