-- ===== src/Kernel/SelfTest.antt =====
-- The test of the memory mapping reads back what it wrote.
use si_stultum.Base.{
  ℕ, zero, suc, ◌+◌, ◌*◌, ◌/◌, ◌%◌, ◌^◌, ◌≤◌, ◌<◌, Bool, true, false, ltb, ◌&&◌, not, ◌≡◌, ◌≢◌,
  some,
}
use si_stultum.Base.{refl, sym, ap, ◌∙◌, arith, ◌⊎◌, ◌==◌, List, [], ◌∷◌, ◌++◌, length, add64}
use mathlib.Core.Path.{subst}
use si_stultum.Memory.{Memory, IsBytes, write}
use si_stultum.PageMap.{Paging, find_paddr, map_memory, with_memory}
use si_stultum.PageMap.Tree.{Labels, IsTree, IsSpare}
use si_stultum.PageMap.Frame.{
  OnlyIn, find_paddr-frame, bitmap_get-frame, frame-HasSupply, frame-IsTree,
}
use si_stultum.PageMap.Descend.{missing}
use si_stultum.PageMap.Map.{page_number, IsMapped, map_memory-IsMapped}
use si_stultum.Frames.Bitmap.{Outside}
use si_stultum.Frames.Supply.{HasSupply}
use si_stultum.Kernel.Identity.{find_paddr-page}
use si_stultum.Kernel.Virtual.{
  Mmu, IsMmu, store_byte, copy_in, prepend, load_text, vstr_text, map_text,
}

-- The memory after the bytes are stored from a on.
unfoldable poke : ℕ → List ℕ → Memory → Memory
poke a [] m = m
poke a (b ∷ bs) m = poke (suc a) bs (write a b m)

write-outside : (a b c : ℕ) (m : Memory) → a ≢ c → write a b m c ≡ m c
unfolding write
write-outside a b c m ne = ground arith

write_self : (a b : ℕ) (m : Memory) → write a b m a ≡ b
unfolding write
write_self a b m = ground arith

poke-outside :
    (a : ℕ) (bs : List ℕ) (m : Memory) (c : ℕ) → (c < a) ⊎ (a + length bs ≤ c) → poke a bs m c ≡ m c
unfolding poke
poke-outside a [] m c out = refl
poke-outside a (b ∷ bs) m c out =
    poke-outside (suc a) bs (write a b m) c (omega (arith, out))
    ∙ write-outside a b c m (omega (arith, out))

-- The bytes stand in memory from a on.
unfoldable Holds : Memory → ℕ → List ℕ → Type 0
Holds m a [] = Unit
Holds m a (b ∷ bs) = (m a ≡ b) × Holds m (suc a) bs

poke-Holds : (a : ℕ) (bs : List ℕ) (m : Memory) → Holds (poke a bs m) a bs
unfolding poke Holds
poke-Holds a [] m = tt
poke-Holds a (b ∷ bs) m = (
  poke-outside (suc a) bs (write a b m) a (omega arith) ∙ write_self a b m,
  poke-Holds (suc a) bs (write a b m),
)

-- No element is 0, and all are below 256.
unfoldable all_bytes : List ℕ → Bool
all_bytes [] = true
all_bytes (b ∷ bs) = ltb b 256 && all_bytes bs

unfoldable is_text : List ℕ → Bool
is_text [] = true
is_text (b ∷ bs) = not (b == 0) && is_text bs

write-IsBytes : (a b : ℕ) (m : Memory) → b < 256 → IsBytes m → IsBytes (write a b m)
unfolding write
write-IsBytes a b m small bytes c = ground (arith, bytes c)

poke-IsBytes :
    (a : ℕ) (bs : List ℕ) (m : Memory) → all_bytes bs ≡ true → IsBytes m → IsBytes (poke a bs m)
unfolding poke all_bytes
poke-IsBytes a [] m small bytes = bytes
poke-IsBytes a (b ∷ bs) m small bytes =
    poke-IsBytes (suc a) bs (write a b m) (ground (arith, small))
      (write-IsBytes a b m (ground (arith, small)) bytes)

prepend_more : (b : ℕ) (bs : List ℕ) → (b == 0) ≡ false → prepend b (some bs) ≡ some (b ∷ bs)
unfolding prepend
prepend_more b bs more = rw more refl

-- A page at `base` that maps to frame t, which is no table.
module _ (translate : Mmu) (mmu : IsMmu translate) (s : Paging) (l : Labels) (tree : IsTree s l)
    (t base : ℕ) (plain : l.level t ≡ 0) (aligned : base % 4096 ≡ 0) (small : base + 4096 < 2 ^ 64)
    (mapped : find_paddr s base ≡ 4096 * t) where
  translate-page :
      (m : Memory) (k : ℕ)
      → OnlyIn s.frames.memory t m
      → k < 4096
      → translate (with_memory s m) (base + k) ≡ 4096 * t + k
  translate-page m k only h =
      let here : find_paddr s (base + k) ≡ find_paddr s base =
        find_paddr-page s (base + k) base (omega arith) in
      omega (
        arith,
        mmu (with_memory s m) (base + k),
        find_paddr-frame s l t m tree plain only (base + k),
        here,
        mapped,
      )

  store_byte-page :
      (m : Memory) (k b : ℕ)
      → OnlyIn s.frames.memory t m
      → k < 4096
      → store_byte translate (with_memory s m) (base + k) b
        ≡ with_memory s (write (4096 * t + k) b m)
  unfolding store_byte
  store_byte-page m k b only h = ap (λ a. with_memory s (write a b m)) (translate-page m k only h)

  only-write :
      (m : Memory) (k b : ℕ)
      → OnlyIn s.frames.memory t m
      → k < 4096
      → OnlyIn s.frames.memory t (write (4096 * t + k) b m)
  only-write m k b only h a off =
      write-outside (4096 * t + k) b a m (omega (arith, off)) ∙ only a off

  copy_in-poke :
      (bs : List ℕ) (k : ℕ) (m : Memory)
      → OnlyIn s.frames.memory t m
      → k + length bs ≤ 4096
      → copy_in translate (with_memory s m) (base + k) bs ≡ with_memory s (poke (4096 * t + k) bs m)
  unfolding copy_in poke
  copy_in-poke [] k m only fits = refl
  copy_in-poke (b ∷ bs) k m only fits =
      let next : add64 (base + k) 1 ≡ base + suc k = omega arith in
      let place : 4096 * t + suc k ≡ suc (4096 * t + k) = omega arith in
      ap (λ x. copy_in translate x (add64 (base + k) 1) bs)
        (store_byte-page m k b only (omega arith))
      ∙ ap (λ v. copy_in translate (with_memory s (write (4096 * t + k) b m)) v bs) next
      ∙ copy_in-poke bs (suc k) (write (4096 * t + k) b m) (only-write m k b only (omega arith))
          (omega arith)
      ∙ ap (λ a. with_memory s (poke a bs (write (4096 * t + k) b m))) place

  load_text-page :
      (fuel : ℕ) (bs : List ℕ) (k : ℕ) (m : Memory)
      → OnlyIn s.frames.memory t m
      → is_text bs ≡ true
      → Holds m (4096 * t + k) (bs ++ (0 ∷ []))
      → k + length bs < 4096
      → length bs < fuel
      → load_text translate fuel (with_memory s m) (base + k) ≡ some bs
  unfolding load_text is_text Holds
  load_text-page zero bs k m only text stands fits enough = elim enough [ ]
  load_text-page (suc fuel) [] k m only text stands fits enough =
      ap (λ x. prepend x (load_text translate fuel (with_memory s m) (add64 (base + k) 1)))
        (ap m (translate-page m k only (omega arith)) ∙ stands.0)
      ∙ (unfold prepend in refl)
  load_text-page (suc fuel) (b ∷ bs) k m only text stands fits enough =
      let next : add64 (base + k) 1 ≡ base + suc k = omega arith in
      let place : suc (4096 * t + k) ≡ 4096 * t + suc k = omega arith in
      let rest : load_text translate fuel (with_memory s m) (base + suc k) ≡ some bs =
        load_text-page fuel bs (suc k) m only (ground (arith, text))
          (subst (λ a. Holds m a (bs ++ (0 ∷ []))) place stands.1) (omega arith) (omega arith) in
      ap (λ x. prepend x (load_text translate fuel (with_memory s m) (add64 (base + k) 1)))
        (ap m (translate-page m k only (omega arith)) ∙ stands.0)
      ∙ ap (prepend b) (ap (load_text translate fuel (with_memory s m)) next ∙ rest)
      ∙ prepend_more b bs (ground (arith, text))

  only-poke :
      (bs : List ℕ)
      → length bs ≤ 4096
      → OnlyIn s.frames.memory t (poke (4096 * t + 0) bs s.frames.memory)
  only-poke bs fits a off = poke-outside (4096 * t + 0) bs s.frames.memory a (omega (arith, off))

-- What mapping the page at base and copying a text with its NUL there leaves, with n frames to spare: the
-- tables are a tree, a held frame that is no table stays one, the text is read back whole from the virtual
-- address with fuel for its bytes and its NUL, and every other page translates as before.
pub record IsTested (translate : Mmu) (s : Paging) (l : Labels) (base : ℕ) (bs : List ℕ) (n : ℕ)
    (s' : Paging) : Type 0 where
  pub labels : Labels
  pub tree : IsTree s' labels
  pub spare : (u : ℕ) → IsSpare s l u → IsSpare s' labels u
  pub read_back : (fuel : ℕ) → length bs < fuel → load_text translate fuel s' base ≡ some bs
  pub others : (w : ℕ) → page_number w ≢ page_number base → find_paddr s' w ≡ find_paddr s w
  pub supply : HasSupply s'.frames n

module _ (translate : Mmu) (mmu : IsMmu translate) (s : Paging) (l : Labels) (t base n : ℕ)
    (bs : List ℕ) (s1 : Paging) (is_mapped : IsMapped s l base (4096 * t) n s1)
    (spare : IsSpare s l t) (frame : t < 2 ^ 40) (aligned : base % 4096 ≡ 0)
    (small : base + 4096 < 2 ^ 64) (text : is_text bs ≡ true)
    (bytes : all_bytes (bs ++ (0 ∷ [])) ≡ true) (room : length bs < 4096)
    (fits : length (bs ++ (0 ∷ [])) ≤ 4096) where
  abbrev after : Memory
  after = poke (4096 * t + 0) (bs ++ (0 ∷ [])) s1.frames.memory

  mapped : find_paddr s1 base ≡ 4096 * t
  mapped = omega (arith, is_mapped.mapped)

  plain : is_mapped.labels.level t ≡ 0
  plain = (is_mapped.spare t spare).0

  copied : copy_in translate s1 base (bs ++ (0 ∷ [])) ≡ with_memory s1 after
  copied =
      let here : base ≡ base + 0 = omega arith in
      ap (λ v. copy_in translate s1 v (bs ++ (0 ∷ []))) here
      ∙ copy_in-poke translate mmu s1 is_mapped.labels is_mapped.tree t base plain aligned small
          mapped (bs ++ (0 ∷ [])) 0 s1.frames.memory (λ a off. refl) (omega (arith, fits))

  only : OnlyIn s1.frames.memory t after
  only =
      only-poke translate mmu s1 is_mapped.labels is_mapped.tree t base plain aligned small mapped
        (bs ++ (0 ∷ [])) fits

  after-IsBytes : IsBytes after
  after-IsBytes = poke-IsBytes _ (bs ++ (0 ∷ [])) s1.frames.memory bytes is_mapped.tree.bitmap.bytes

  apart : (a : ℕ) → 4096 * t ≤ a → a < 4096 * t + 4096 → Outside s1.frames a
  apart = (is_mapped.spare t spare).1.1

  after-IsTested : IsTested translate s l base bs n (with_memory s1 after)
  after-IsTested = record {
    labels = is_mapped.labels;
    tree = frame-IsTree s1 is_mapped.labels t after is_mapped.tree plain only after-IsBytes apart;
    spare = λ u was.
        let still = is_mapped.spare u was in
        (
          still.0,
          (
            bitmap_get-frame s1 is_mapped.labels t after is_mapped.tree plain only after-IsBytes
                  apart u
                ∙ still.1.0,
            still.1.1,
          ),
        );
    read_back = λ fuel h.
        let here : base ≡ base + 0 = omega arith in
        ap (load_text translate fuel (with_memory s1 after)) here
        ∙ load_text-page translate mmu s1 is_mapped.labels is_mapped.tree t base plain aligned small
            mapped fuel bs 0 after only text
            (poke-Holds (4096 * t + 0) (bs ++ (0 ∷ [])) s1.frames.memory) (omega (arith, room)) h;
    others = λ w off.
        find_paddr-frame s1 is_mapped.labels t after is_mapped.tree plain only w
        ∙ is_mapped.others w off;
    supply =
        frame-HasSupply s1 is_mapped.labels t after is_mapped.tree plain only after-IsBytes apart n
          is_mapped.supply;
  }

  page-IsTested : IsTested translate s l base bs n (copy_in translate s1 base (bs ++ (0 ∷ [])))
  page-IsTested = subst (IsTested translate s l base bs n) (sym copied) after-IsTested

text_ok : is_text vstr_text ≡ true
unfolding is_text
text_ok = refl

bytes_ok : all_bytes (vstr_text ++ (0 ∷ [])) ≡ true
unfolding all_bytes
bytes_ok = refl

length_ok : length vstr_text < 4096
length_ok = omega arith

-- Where the processor walks the tables as pmm_find_paddr does, the tables are a tree, frame 0x80 is held and is
-- no table, and there are frames for the missing tables and n more, the kernel's test of its mapping reads back
-- the text that it wrote, keeps the tables a tree, changes no other page's translation, and leaves n frames.
pub map_text-IsTested :
    (translate : Mmu) (s : Paging) (l : Labels) (n : ℕ)
    → IsMmu translate
    → IsTree s l
    → IsSpare s l 0x80
    → HasSupply s.frames (missing s.frames.memory 3 (s.pml4 / 4096) 0x600000000 + n)
    → IsTested translate s l 0x600000000 vstr_text n (map_text translate s)
unfolding map_text
map_text-IsTested translate s l n mmu tree spare enough =
    let s1 = map_memory s 0x600000000 0x80000 in
    let is_mapped = map_memory-IsMapped s l 0x600000000 0x80000 n tree enough in
    page-IsTested translate mmu s l 0x80 0x600000000 n vstr_text s1 is_mapped spare (omega arith)
      (omega arith) (omega arith) text_ok bytes_ok length_ok (omega arith)
