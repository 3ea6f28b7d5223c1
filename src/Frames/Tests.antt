-- ===== src/Frames/Tests.antt =====
-- The allocator's theorems at concrete states.
use si_stultum.Base.{zero, suc, ◌*◌, ◌/◌, true, false, ◌≡◌, refl}
use si_stultum.Base.{arith, ◌==◌, if◌then◌else◌, inl, add64, sub64}
use si_stultum.Memory.{IsBytes, load}
use si_stultum.Frames.{Frames, bitmap_get, bitmap_set, lck, lckn, request}
use si_stultum.Bits.{bit}
use si_stultum.Frames.Bitmap.{IsBitmap, IsUpdated, bitmap_set-IsUpdated, digit}
use si_stultum.Frames.Lock.{IsMarking, IsBalanced, count, lck-IsMarking, lck_beyond-not-IsBalanced}
use si_stultum.Frames.Range.{IsRun, lckn-IsRun}
use si_stultum.Frames.Request.{AllTaken, IsGrant, request-IsGrant, request_exhausted}
use si_stultum.Frames.Init.{
  ppa_init, bitmap_pages, rounds, total_loop, total_step, get_memory_size, counted,
}
use si_stultum.Frames.Init.Scan.{total_loop-IsLargest, IsLargest}
use si_stultum.Frames.Init.Fill.{IsFilled}
use si_stultum.Frames.Init.Done.{IsPlanned, totals, ppa_init-IsFilled, ppa_init-IsBalanced}

-- 40 frames, of which frame 32 is taken; the bitmap lies at 4096.
abbrev sample : Frames
sample = record {
  size = 2;
  max_index = 39;
  data_addr = 4096;
  mem_used = 4096;
  mem_rsvd = 0;
  mem_free = 39 * 4096;
  mem_total = 40 * 4096;
  ppa_initialized = true;
  last_hit = 33;
  defined = true;
  memory = λ a. if a == 4100 then 1 else 0;
}

sample-IsBitmap : IsBitmap sample
sample-IsBitmap = record { size_lem = refl; bytes = λ a. ground arith }

sample-IsBalanced : IsBalanced sample
unfolding count bitmap_get load
sample-IsBalanced = record { held = refl; total = refl }

taken_32 : bitmap_get sample 32 ≡ true
unfolding bitmap_get load
taken_32 = refl

free_33 : bitmap_get sample 33 ≡ false
unfolding bitmap_get load
free_33 = refl

up_to_33 : AllTaken sample 32 33
up_to_33 j lo hi = let e : j ≡ 32 = omega arith in rw e taken_32

request-IsGrant_example : IsGrant sample 33 (request sample)
request-IsGrant_example =
    request-IsGrant sample 33 sample-IsBitmap (omega arith) (omega arith) (omega arith) free_33
      up_to_33

bitmap_set-IsUpdated_example : IsUpdated sample 5 true (bitmap_set sample 5 true)
bitmap_set-IsUpdated_example = bitmap_set-IsUpdated sample 5 true sample-IsBitmap (omega arith)

lck-IsMarking_example : IsMarking sample (20480 / 4096) true (lck sample 20480)
lck-IsMarking_example = lck-IsMarking sample 20480 sample-IsBitmap (omega arith)

lck_beyond-not-IsBalanced_example : ¬ IsBalanced (lck sample 409600)
lck_beyond-not-IsBalanced_example =
    lck_beyond-not-IsBalanced sample 409600 (omega arith) sample-IsBalanced

lckn-IsRun_example : IsRun sample (8192 / 4096) 3 true (lckn sample 8192 3)
lckn-IsRun_example = lckn-IsRun sample 8192 3 sample-IsBitmap (omega arith)

-- Three frames, all taken.
abbrev full : Frames
full = record {
  size = 1;
  max_index = 2;
  data_addr = 4096;
  mem_used = 3 * 4096;
  mem_rsvd = 0;
  mem_free = 0;
  mem_total = 3 * 4096;
  ppa_initialized = true;
  last_hit = 0;
  defined = true;
  memory = λ a. if a == 4096 then 7 else 0;
}

full-IsBitmap : IsBitmap full
full-IsBitmap = record { size_lem = refl; bytes = λ a. ground arith }

full_taken : AllTaken full 0 3
unfolding bitmap_get load
full_taken zero lo hi = refl
full_taken (suc zero) lo hi = refl
full_taken (suc (suc zero)) lo hi = refl
full_taken (suc (suc (suc j))) lo hi = absurd (omega arith)

spare_digit : digit full 3 ≡ 0
unfolding load bit
spare_digit = refl

request_exhausted_example : request full ≡ (
  record full { mem_used = add64 (3 * 4096) 4096; mem_free = sub64 0 4096; last_hit = 3 },
  3 * 4096,
)
request_exhausted_example =
    request_exhausted full full-IsBitmap (omega arith) (omega arith) spare_digit full_taken

-- A machine with a memory map of one descriptor of 48 bytes at 2048: 300 pages of conventional
-- memory from 4096 on.
abbrev machine : Frames
machine = record {
  size = 0;
  max_index = 0;
  data_addr = 0;
  mem_used = 0;
  mem_rsvd = 0;
  mem_free = 0;
  mem_total = 0;
  ppa_initialized = false;
  last_hit = 0;
  defined = true;
  memory = λ a.
      if a == 2048
      then 7
      else if a == 2057
      then 16
      else if a == 2072
      then 44
      else if a == 2073
      then 1
      else 0;
}

machine-IsBytes : IsBytes machine.memory
machine-IsBytes a = ground arith

largest : (totals machine 2048 48 48).largest_segment ≡ 4096
unfolding total_loop total_step rounds load
largest = refl

all_pages : (totals machine 2048 48 48).mem_total ≡ 300 * 4096
unfolding total_loop total_step rounds load
all_pages = refl

machine-IsPlanned :
    IsPlanned
      (counted machine (totals machine 2048 48 48))
      2048
      48
      48
      (totals machine 2048 48 48).largest_segment
      ((totals machine 2048 48 48).mem_total / 4096)
unfolding rounds load bitmap_pages
machine-IsPlanned = record {
  bytes = machine-IsBytes;
  some_page = omega (arith, all_pages);
  fit = (
    record {
      apart = λ a lo hi. inl (omega (arith, largest));
      ends = omega arith;
      small = omega arith;
    },
    tt,
  );
  ends = rw (largest, all_pages) (omega arith);
}

ppa_init-IsFilled_example :
    IsFilled machine.memory 2048 48 48
      (totals machine 2048 48 48).largest_segment
      ((totals machine 2048 48 48).mem_total / 4096)
      (ppa_init machine 2048 48 48)
ppa_init-IsFilled_example =
    ppa_init-IsFilled machine 2048 48 48 refl (λ e. absurd (omega (arith, largest)))
      machine-IsPlanned

ppa_init-IsBalanced_example : IsBalanced (ppa_init machine 2048 48 48)
ppa_init-IsBalanced_example =
    ppa_init-IsBalanced machine 2048 48 48 refl (λ e. absurd (omega (arith, largest)))
      machine-IsPlanned (omega (arith, all_pages))
      (rw (largest, all_pages) (unfold bitmap_pages in omega arith))

total_loop-IsLargest_example :
    ((totals machine 2048 48 48).mem_total ≡ get_memory_size machine.memory 2048 48 48)
    × IsLargest machine.memory 2048 48 (rounds 48 48) (totals machine 2048 48 48)
total_loop-IsLargest_example = total_loop-IsLargest machine.memory 2048 48 48

-- A machine whose memory map is empty of conventional memory.
abbrev blank : Frames
blank = record machine { memory = λ a. 0 }

no_segment : (totals blank 2048 48 48).largest_segment ≡ 0
unfolding total_loop total_step rounds load
no_segment = refl
