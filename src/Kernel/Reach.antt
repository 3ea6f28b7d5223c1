-- ===== src/Kernel/Reach.antt =====
-- The kernel of src/kernel.c behind the load of CR3: the pages that it uses are where it expects them.
use si_stultum.Base.{ℕ, zero, suc, ◌+◌, ◌*◌, ◌/◌, ◌≤◌, ◌<◌, true, some, ◌≡◌, refl, arith}
use si_stultum.Frames.{Frames}
use si_stultum.Frames.Init.{rounds}
use si_stultum.PageMap.{Paging, find_paddr}
use si_stultum.Kernel.Pages.{BootInfo}
use si_stultum.Kernel.Run.{
  Kernel, Platform, is_mirrored, is_span_mirrored, is_running, is_reached, set_pml4, go_on,
}

-- Every page that begins below `stop` maps to itself.
abbrev pub IsLowMirror : Paging → ℕ → Type 0
IsLowMirror s stop = (j : ℕ) → 4096 * j < stop → find_paddr s (4096 * j) ≡ 4096 * j

is_mirrored_lem :
    (s : Paging) (page n : ℕ) → IsLowMirror s (4096 * (page + n)) → is_mirrored s page n ≡ true
unfolding is_mirrored
is_mirrored_lem s page zero low = refl
is_mirrored_lem s page (suc n) low =
    let here : find_paddr s (4096 * page) ≡ 4096 * page = low page (omega arith) in
    let rest = is_mirrored_lem s (page + 1) n (λ j h. low j (omega arith)) in
    ground (arith, here, rest)

is_span_mirrored_lem :
    (s : Paging) (start stop : ℕ)
    → start ≤ stop
    → IsLowMirror s stop
    → is_span_mirrored s start stop ≡ true
unfolding is_span_mirrored rounds
is_span_mirrored_lem s start stop le low =
    is_mirrored_lem s (start / 4096) _ (λ j h. low j (omega arith))

module _ (p : Platform) (b : BootInfo) (image : b.kernel_start ≤ b.kernel_end)
    (stack : p.stack ≤ p.stack_end) where
  is_running_lem :
      (s : Paging)
      → IsLowMirror s b.kernel_end
      → IsLowMirror s p.stack_end
      → is_running p b s ≡ true
  unfolding is_running
  is_running_lem s code frames =
      rw
        (
          is_span_mirrored_lem s b.kernel_start b.kernel_end image code,
          is_span_mirrored_lem s p.stack p.stack_end stack frames,
        )
        refl

  pub go_on_lem :
      (k : Kernel)
      → IsLowMirror k.paging b.kernel_end
      → IsLowMirror k.paging p.stack_end
      → go_on p b k ≡ some k
  unfolding go_on
  go_on_lem k code frames = rw (is_running_lem k.paging code frames) refl

  pub set_pml4_lem :
      (f : Frames) (k : Kernel) (stop : ℕ)
      → IsLowMirror k.paging stop
      → b.kernel_end ≤ stop
      → p.stack_end ≤ stop
      → f.data_addr + 4 * f.size ≤ stop
      → 4096 * (f.max_index + 1) ≤ stop
      → set_pml4 p b f k ≡ some k
  unfolding set_pml4 is_reached
  set_pml4_lem f k stop low code frames bitmap grants =
      let all =
        is_mirrored_lem k.paging 0 (f.max_index + 1) (λ j h. low j (omega (arith, h, grants))) in
      rw
        (
          is_running_lem k.paging (λ j h. low j (omega arith)) (λ j h. low j (omega arith)),
          is_span_mirrored_lem k.paging f.data_addr (f.data_addr + 4 * f.size) (omega arith)
              (λ j h. low j (omega arith)),
          all,
        )
        refl
