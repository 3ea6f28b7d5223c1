-- ===== src/PageMap/Link.antt =====
-- The last level of pmm_map_memory: an entry of a table of level 1.
use si_stultum.Base.{ℕ, zero, suc, ◌+◌, ◌*◌, ◌/◌, ◌%◌, ◌^◌, ◌<◌, ◌≡◌, ◌≢◌}
use si_stultum.Base.{refl, sym, ap, ◌∙◌, arith, inl, inr, ◌⊎◌, ◌==◌, ◌&&◌, Bool-cases}
use si_stultum.Memory.{store-IsBytes}
use si_stultum.Frames.{bitmap_get}
use si_stultum.Frames.Bitmap.{IsBitmap}
use si_stultum.Frames.Supply.{HasSupply, grantable}
use si_stultum.Frames.Lock.{count_ext}
use si_stultum.PageMap.{Paging, flag_get, addr_get, linked, table_index, link, with_memory}
use si_stultum.PageMap.Entry.{linked_lem}
use si_stultum.PageMap.Tree.{
  entry, IsPresent, Labels, IsTree, seek, seek-same, table_index-lt, entry_lt, bitmap_get_ext,
}
use si_stultum.PageMap.Entries.{
  put_entry, entry-put_entry_self, entry-put_entry_ne, put_entry-outside, bitmap-Outside,
}

-- The number of the page of an address, from the part of a table of level k on.
unfoldable pub number : ℕ → ℕ → ℕ → ℕ
number zero part vaddr = part
number (suc k) part vaddr = number k (part * 512 + table_index vaddr (12 + 9 * k)) vaddr

-- The state with the page in entry i of table t.
abbrev pub linked_page : Paging → ℕ → ℕ → ℕ → Paging
linked_page s t i paddr =
    with_memory s (put_entry t i (linked (entry s.frames.memory t i) paddr) s.frames.memory)

pub link-linked_page :
    (s : Paging) (t i paddr : ℕ) → link s (4096 * t) i paddr ≡ linked_page s t i paddr
unfolding link
link-linked_page s t i paddr = refl

module _ (s : Paging) (l : Labels) (t i paddr : ℕ) (tree : IsTree s l) (level : l.level t ≡ 1)
    (small : i < 512) where
  linked-entry :
      entry (linked_page s t i paddr).frames.memory t i ≡ linked (entry s.frames.memory t i) paddr
  linked-entry =
      entry-put_entry_self s.frames.memory t i _
        (linked_lem (entry s.frames.memory t i) paddr
          (entry_lt s.frames.memory t i tree.bitmap.bytes)).2

  pub linked-IsPresent : IsPresent (entry (linked_page s t i paddr).frames.memory t i)
  linked-IsPresent =
      ap (λ e. flag_get e 1) linked-entry
      ∙ (linked_lem (entry s.frames.memory t i) paddr
          (entry_lt s.frames.memory t i tree.bitmap.bytes)).0

  pub linked_number :
      addr_get (entry (linked_page s t i paddr).frames.memory t i) ≡ paddr / 2 ^ 12 % 2 ^ 40
  linked_number =
      ap addr_get linked-entry
      ∙ (linked_lem (entry s.frames.memory t i) paddr
          (entry_lt s.frames.memory t i tree.bitmap.bytes)).1

  pub entry-linked_other :
      (u j : ℕ)
      → j < 512
      → (u ≢ t) ⊎ (j ≢ i)
      → entry (linked_page s t i paddr).frames.memory u j ≡ entry s.frames.memory u j
  entry-linked_other u j h other = entry-put_entry_ne s.frames.memory t i _ u j small h other

  upper : (u n : ℕ) → l.level u ≡ suc (suc n) → u ≢ t
  upper u n labelled e = omega (arith, level, ap l.level e)

  linked-IsBitmap : IsBitmap (linked_page s t i paddr).frames
  linked-IsBitmap = record {
    size_lem = tree.bitmap.size_lem;
    bytes = store-IsBytes 8 _ _ _ tree.bitmap.bytes;
  }

  pub bitmap_get-linked :
      (j : ℕ) → bitmap_get (linked_page s t i paddr).frames j ≡ bitmap_get s.frames j
  bitmap_get-linked j =
      bitmap_get_ext s.frames (linked_page s t i paddr).frames j tree.bitmap linked-IsBitmap refl
        refl
        λ a lo hi.
          put_entry-outside s.frames.memory t i _ a small
            (bitmap-Outside s.frames t a (tree.table t (omega arith)).apart lo hi)

  pub linked-HasSupply :
      (n : ℕ) → HasSupply s.frames n → HasSupply (linked_page s t i paddr).frames n
  linked-HasSupply n enough = omega (
    arith,
    enough,
    count_ext (grantable s.frames) (grantable (linked_page s t i paddr).frames)
        (suc s.frames.max_index) λ j h. ground (arith, bitmap_get-linked j),
  )

  linked_child :
      (u n j : ℕ)
      → l.level u ≡ suc (suc n)
      → j < 512
      → IsPresent (entry (linked_page s t i paddr).frames.memory u j)
      → (l.level (addr_get (entry (linked_page s t i paddr).frames.memory u j)) ≡ suc n)
        × (l.part (addr_get (entry (linked_page s t i paddr).frames.memory u j))
            ≡ l.part u * 512 + j)
  linked_child u n j labelled h here =
      let same = entry-linked_other u j h (inl (upper u n labelled)) in
      rw same (tree.child u n j labelled h (rw same at here))

  pub linked-IsTree : IsTree (linked_page s t i paddr) l
  linked-IsTree = record {
    bitmap = linked-IsBitmap;
    small = tree.small;
    free_apart = λ j a h free lo hi. tree.free_apart j a h (sym (bitmap_get-linked j) ∙ free) lo hi;
    root = tree.root;
    root_level = tree.root_level;
    root_part = tree.root_part;
    table = λ u labelled.
        let was = tree.table u labelled in
        record { within = was.within; taken = bitmap_get-linked u ∙ was.taken; apart = was.apart };
    child = linked_child;
  }

  -- An address of another page is translated as before.
  pub seek-linked :
      (n u vaddr : ℕ)
      → l.level u ≡ n
      → number n (l.part u) vaddr ≢ l.part t * 512 + i
      → seek (linked_page s t i paddr).frames.memory n (4096 * u) vaddr
        ≡ seek s.frames.memory n (4096 * u) vaddr
  seek-linked zero u vaddr labelled other = unfold seek in refl
  seek-linked (suc zero) u vaddr labelled other =
      elim (Bool-cases ((u == t) && (table_index vaddr (12 + 9 * zero) == i))) [
        | inl link ↦
            let u≡t : u ≡ t = ground arith in
            let at_i : table_index vaddr (12 + 9 * zero) ≡ i = ground arith in
            absurd (other (unfold number in omega (arith, ap l.part u≡t, at_i)))
        | inr off ↦
            seek-same s.frames.memory _ zero u vaddr
              (entry-linked_other u _ (table_index-lt vaddr (12 + 9 * zero)) (ground arith))
              (λ here. unfold seek in refl)
      ]
  seek-linked (suc (suc n)) u vaddr labelled other =
      seek-same s.frames.memory _ (suc n) u vaddr
        (entry-linked_other u _ (table_index-lt vaddr (12 + 9 * suc n)) (inl (upper u n labelled)))
        (λ here.
          let below = tree.child u n _ labelled (table_index-lt vaddr (12 + 9 * suc n)) here in
          seek-linked (suc n) _ vaddr below.0
            (λ e. other (unfold number in (ap (λ p. number (suc n) p vaddr) (sym below.1) ∙ e))))
