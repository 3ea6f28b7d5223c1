-- ===== src/Console/Screen.antt =====
-- puts_at and cls of src/conlib.c.
use si_stultum.Base.{
  ℕ, zero, suc, ◌+◌, ◌-◌, ◌*◌, ◌/◌, ◌%◌, ◌^◌, ◌≤◌, ◌<◌, true, false, some, ◌≡◌, refl, ap, arith,
}
use si_stultum.Base.{leb, List, inl, inr, ◌⊎◌, ◌∙◌, ℤ, pos, negsuc, neg_part, ◌+ℤ◌, u32, lt-or-ge}
use native.Mathlib.Nat.{mod-eq_of_lt, mod-eq-sub-mod}
use si_stultum.Memory.{Memory, load32, store32, store-outside, load-store_self, load_ext}
use si_stultum.Console.{Console, Renderer, puts, puts_at, from_end, fill, cls}

-- A position that may count from the end, as one from the start: -1 is the last one of `step`, and
-- positions before the first one begin again at the end.
unfoldable pub from_start : ℕ → ℤ → ℕ
from_start step (pos n) = n
from_start step (negsuc n) = step - 1 - n % step

up_to : (n step : ℕ) → n < step → negsuc n +ℤ pos step ≡ pos (step - 1 - n)
unfolding ◌+ℤ◌
up_to n step h =
    let yes : leb (suc n + 0) (0 + step) ≡ true = ground arith in
    let e : 0 + step - (suc n + 0) ≡ step - 1 - n = omega arith in rw (yes, e)

still_below : (n step : ℕ) → 0 < step → step ≤ n → negsuc n +ℤ pos step ≡ negsuc (n - step)
unfolding ◌+ℤ◌
still_below n step some_step h =
    let no : leb (suc n + 0) (0 + step) ≡ false = ground arith in
    let e : suc n + 0 - (0 + step) - 1 ≡ n - step = omega arith in rw (no, e)

from_end-pos : (fuel step n : ℕ) → from_end fuel step (pos n) ≡ some n
unfolding from_end
from_end-pos zero step n = refl
from_end-pos (suc fuel) step n = refl

from_end_lem :
    (fuel step : ℕ) (z : ℤ)
    → 0 < step
    → neg_part z ≤ fuel
    → from_end fuel step z ≡ some (from_start step z)
unfolding from_end from_start
from_end_lem fuel step (pos n) some_step h = from_end-pos fuel step n
from_end_lem zero step (negsuc n) some_step h = absurd (omega arith)
from_end_lem (suc fuel) step (negsuc n) some_step h = elim (lt-or-ge n step) [
  | inl last ↦
      ap (from_end fuel step) (up_to n step last)
      ∙ from_end-pos fuel step (step - 1 - n)
      ∙ rw (mod-eq_of_lt last) refl
  | inr before ↦
      ap (from_end fuel step) (still_below n step some_step before)
      ∙ from_end_lem fuel step (negsuc (n - step)) some_step (omega arith)
      ∙ rw (mod-eq-sub-mod before) refl
]

from_start-lt : (step n : ℕ) → 0 < step → from_start step (negsuc n) < step
unfolding from_start
from_start-lt step n h = omega arith

-- If the screen has room for a character, and there is fuel for each negative step, puts_at prints from
-- the given column and row, where negative ones count from the screen's end, and puts the cursor back.
pub puts_at_lem :
    (render : Renderer) (fuel : ℕ) (x y : ℤ) (str : List ℕ) (s : Console)
    → 0 < s.w / s.font_width
    → 0 < s.h / s.font_height
    → neg_part x ≤ fuel
    → neg_part y ≤ fuel
    → let column = from_start (s.w / s.font_width) x in
      let row = from_start (s.h / s.font_height) y in
      puts_at render fuel x y str s
      ≡ some
          (record (puts render str
            (record s { x = column * s.font_width; y = row * s.font_height })) { x = s.x; y = s.y })
unfolding puts_at
puts_at_lem render fuel x y str s wide high fuel_x fuel_y =
    rw
      (
        puts_at,
        from_end_lem fuel (s.w / s.font_width) x wide fuel_x,
        from_end_lem fuel (s.h / s.font_height) y high fuel_y,
      )
      refl

fill-outside :
    (len ptr bg a : ℕ) (m : Memory) → (a < ptr) ⊎ (ptr + 4 * len ≤ a) → fill len ptr bg m a ≡ m a
unfolding fill
fill-outside zero ptr bg a m out = refl
fill-outside (suc len) ptr bg a m out =
    fill-outside len (ptr + 4) bg a (store32 ptr bg m) (omega arith)
    ∙ store-outside 4 ptr bg a m (omega arith)

fill-inside :
    (len ptr bg k : ℕ) (m : Memory)
    → bg < 2 ^ 32
    → k < len
    → load32 (ptr + 4 * k) (fill len ptr bg m) ≡ bg
unfolding fill
fill-inside zero ptr bg k m small h = absurd (omega arith)
fill-inside (suc len) ptr bg zero m small h =
    let start : ptr + 4 * 0 ≡ ptr = omega arith in
    rw start (
      load_ext 4 ptr (fill len (ptr + 4) bg (store32 ptr bg m)) (store32 ptr bg m)
        (λ b lo hi. fill-outside len (ptr + 4) bg b (store32 ptr bg m) (omega arith))
      ∙ load-store_self 4 ptr bg m small)
fill-inside (suc len) ptr bg (suc k) m small h =
    let next : ptr + 4 * suc k ≡ ptr + 4 + 4 * k = omega arith in
    rw next (fill-inside len (ptr + 4) bg k (store32 ptr bg m) small (omega arith))

-- cls sets the first w * h pixels of memory behind the frame buffer's address to the background, and
-- changes no byte behind them, whatever the pitch of a line is.
pub cls_lem :
    (s : Console)
    → s.bg < 2 ^ 32
    → s.w * s.h < 2 ^ 32
    → ((k : ℕ) → k < s.w * s.h → load32 (s.ptr + 4 * k) (cls s).memory ≡ s.bg)
      × ((a : ℕ) → (a < s.ptr) ⊎ (s.ptr + 4 * (s.w * s.h) ≤ a) → (cls s).memory a ≡ s.memory a)
unfolding cls
cls_lem s small fits =
    let size : u32 (s.w * s.h) ≡ s.w * s.h = omega arith in
    rw size (
      (λ k h. fill-inside (s.w * s.h) s.ptr s.bg k s.memory small h),
      (λ a out. fill-outside (s.w * s.h) s.ptr s.bg a s.memory out),
    )
