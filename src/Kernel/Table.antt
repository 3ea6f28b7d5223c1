-- ===== src/Kernel/Table.antt =====
-- init_idt of src/kernel.c beside the page tables: its table stands in a frame of its own.
use si_stultum.Base.{ℕ, suc, ◌+◌, ◌*◌, ◌≤◌, ◌<◌, ◌≡◌, refl, sym, ap, ◌∙◌, arith}
use mathlib.Core.Path.{subst}
use si_stultum.Memory.{Memory, IsBytes, store-outside, store-IsBytes}
use si_stultum.Frames.{Frames, request}
use si_stultum.Frames.Request.{IsGrant}
use si_stultum.Frames.Supply.{HasSupply, request-IsGranted}
use si_stultum.PageMap.{Paging, find_paddr, with_memory}
use si_stultum.PageMap.Tree.{Labels, IsTree, IsSpare}
use si_stultum.PageMap.Frame.{
  OnlyIn, find_paddr-frame, bitmap_get-frame, frame-HasSupply, frame-IsTree, requested,
  find_paddr-requested, requested-IsSpare_kept, requested-IsSpare, requested-IsTree,
}
use si_stultum.Ports.Machine.{Machine, Device}
use si_stultum.Kernel.Interrupts.{Handlers, Descriptor, set_gate, set_gates, init_idt}

set_gate-OnlyIn :
    (m0 : Memory) (t vector handler : ℕ) (m : Memory)
    → vector < 256
    → OnlyIn m0 t m
    → OnlyIn m0 t (set_gate (4096 * t) vector handler m)
unfolding set_gate
set_gate-OnlyIn m0 t vector handler m small only a off =
    store-outside 16 (4096 * t + vector * 16) _ a m (omega (arith, off)) ∙ only a off

set_gates-OnlyIn : (t : ℕ) (h : Handlers) (m : Memory) → OnlyIn m t (set_gates (4096 * t) h m)
unfolding set_gates
set_gates-OnlyIn t h m = set_gate-OnlyIn m t 0x21 h.keyboard _ (omega arith) (
    set_gate-OnlyIn m t 0x20 h.timer _ (omega arith) (
      set_gate-OnlyIn m t 0xd h.general_protection_fault _ (omega arith) (
        set_gate-OnlyIn m t 0x8 h.double_fault _ (omega arith)
          (set_gate-OnlyIn m t 0xe h.page_fault m (omega arith) (λ a off. refl)))))

set_gates-IsBytes :
    (base : ℕ) (h : Handlers) (m : Memory) → IsBytes m → IsBytes (set_gates base h m)
unfolding set_gates set_gate
set_gates-IsBytes base h m bytes = store-IsBytes 16 _ _ _ (
    store-IsBytes 16 _ _ _
      (store-IsBytes 16 _ _ _ (store-IsBytes 16 _ _ _ (store-IsBytes 16 _ _ m bytes))))

-- The paging state that init_idt leaves.
abbrev pub with_table : Paging → Frames → Paging
with_table s f = record s { frames = f }

-- What becomes of page tables that are left alone, with n frames to spare: they are the same tree, every
-- address translates as before, and a held frame that is no table stays one.
pub record IsUntouched (s : Paging) (l : Labels) (n : ℕ) (s' : Paging) : Type 0 where
  pub tree : IsTree s' l
  pub same : (w : ℕ) → find_paddr s' w ≡ find_paddr s w
  pub spare : (u : ℕ) → IsSpare s l u → IsSpare s' l u
  pub supply : HasSupply s'.frames n

granted-IsUntouched :
    (s : Paging) (l : Labels) (n c : ℕ) (h : Handlers)
    → IsTree s l
    → c ≤ s.frames.max_index
    → IsGrant s.frames c (request s.frames)
    → HasSupply (request s.frames).0 n
    → IsUntouched s l n
        (with_memory (requested s) (set_gates (4096 * c) h (request s.frames).0.memory))
granted-IsUntouched s l n c h tree within grant enough =
    let m = set_gates (4096 * c) h (request s.frames).0.memory in
    let tree1 = requested-IsTree s l c tree within grant in
    let fresh = requested-IsSpare s l c tree within grant in
    let only = set_gates-OnlyIn c h (request s.frames).0.memory in
    let bytes = set_gates-IsBytes (4096 * c) h _ tree1.bitmap.bytes in
    record {
      tree = frame-IsTree (requested s) l c m tree1 fresh.0 only bytes fresh.1.1;
      same = λ w.
          find_paddr-frame (requested s) l c m tree1 fresh.0 only w
          ∙ find_paddr-requested s l c tree within grant w;
      spare = λ u was.
          let still = requested-IsSpare_kept s l c tree within grant u was in
          (
            still.0,
            (
              bitmap_get-frame (requested s) l c m tree1 fresh.0 only bytes fresh.1.1 u ∙ still.1.0,
              still.1.1,
            ),
          );
      supply = frame-HasSupply (requested s) l c m tree1 fresh.0 only bytes fresh.1.1 n enough;
    }

init_idt-frames :
    (device : Device) (h : Handlers) (f : Frames) (m : Machine) (idtr : Descriptor) (c : ℕ)
    → (request f).1 ≡ 4096 * c
    → (init_idt device h (record { frames = f; machine = m; idtr = idtr })).frames
      ≡ record (request f).0 { memory = set_gates (4096 * c) h (request f).0.memory }
unfolding init_idt
init_idt-frames device h f m idtr c page = rw page refl

-- Where the page tables are a tree and one frame more than n can be granted, init_idt leaves them
-- untouched, and n frames.
pub init_idt-IsUntouched :
    (device : Device) (h : Handlers) (s : Paging) (l : Labels) (n : ℕ) (m : Machine)
    (idtr : Descriptor)
    → IsTree s l
    → HasSupply s.frames (suc n)
    → IsUntouched s l n (
        with_table s
          (init_idt device h (record { frames = s.frames; machine = m; idtr = idtr })).frames)
init_idt-IsUntouched device h s l n m idtr tree enough =
    let (c, granted) = request-IsGranted s.frames n tree.bitmap tree.small enough in
    subst (IsUntouched s l n)
      (ap (with_table s)
        (sym (init_idt-frames device h s.frames m idtr c (omega (arith, granted.grant.address)))))
      (granted-IsUntouched s l n c h tree granted.within granted.grant granted.supply)
