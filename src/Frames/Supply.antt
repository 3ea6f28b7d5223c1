-- ===== src/Frames/Supply.antt =====
-- ppa_request where free frames are left: how many the search can still grant.
use si_stultum.Base.{ℕ, zero, suc, ◌^◌, ◌≤◌, ◌<◌, ◌&&◌, Bool, true, false, not}
use si_stultum.Base.{
  ◌≡◌, refl, ap, arith, inl, inr, ◌⊎◌, ◌==◌, leb, if◌then◌else◌, Bool-cases, from_bool, lt-or-ge,
}
use si_stultum.Frames.{Frames, bitmap_get, request}
use si_stultum.Frames.Bitmap.{IsBitmap}
use si_stultum.Frames.Lock.{count, count_update}
use si_stultum.Frames.Request.{start, IsGrant, request-IsGrant}

-- The frames that the search can still grant: free ones at or behind its start.
abbrev pub grantable : Frames → ℕ → Bool
grantable f j = leb (start f) j && not (bitmap_get f j)

-- At least n frames can still be granted.
abbrev pub HasSupply : Frames → ℕ → Type 0
HasSupply f n = n ≤ count (grantable f) (suc f.max_index)

-- The first index below n at which a test holds.
record IsFirst (p : ℕ → Bool) (n i : ℕ) : Type 0 where
  below : i < n
  holds : p i ≡ true
  none_before : (j : ℕ) → j < i → p j ≡ false

hit-IsFirst : (p : ℕ → Bool) (n : ℕ) → (((i : ℕ) × IsFirst p n i) ⊎ ((j : ℕ) → j < n → p j ≡ false))
hit-IsFirst p zero = inr (λ j h. absurd (omega arith))
hit-IsFirst p (suc n) = elim (hit-IsFirst p n) [
  | inl (i, first) ↦ inl (
    i,
    record {
      below = omega (arith, first.below);
      holds = first.holds;
      none_before = first.none_before;
    },
  )
  | inr none_yet ↦ elim (Bool-cases (p n)) [
    | inl hit ↦ inl (n, record { below = omega arith; holds = hit; none_before = none_yet })
    | inr miss ↦ inr (λ j h. elim (Bool-cases (j == n)) [
      | inl last ↦ let e : j ≡ n = ground arith in rw e miss
      | inr before ↦ none_yet j (ground arith)
    ])
  ]
]

count_miss : (p : ℕ → Bool) (n : ℕ) → ((j : ℕ) → j < n → p j ≡ false) → count p n ≡ 0
unfolding count
count_miss p zero h = refl
count_miss p (suc n) h =
    omega (arith, ap from_bool (h n (omega arith)), count_miss p n (λ j l. h j (omega arith)))

-- What a request promises where a frame can be granted: it grants the first one, which leaves one
-- frame less to grant.
pub record IsGranted (f : Frames) (n i : ℕ) (out : Frames × ℕ) : Type 0 where
  pub within : i ≤ f.max_index
  pub grant : IsGrant f i out
  pub supply : HasSupply out.0 n

grantable-after :
    (f : Frames) (i j : ℕ) (out : Frames × ℕ)
    → IsFirst (grantable f) (suc f.max_index) i
    → IsGrant f i out
    → grantable out.0 j ≡ (if i == j then false else grantable f j)
grantable-after f i j out first grant = elim (lt-or-ge j i) [
  | inl before ↦
      ground (arith, grant.marking.marked j, first.none_before j before, grant.hit, first.holds)
  | inr behind ↦ ground (arith, grant.marking.marked j, grant.hit, first.holds)
]

pub request-IsGranted :
    (f : Frames) (n : ℕ)
    → IsBitmap f
    → f.max_index < 2 ^ 40
    → HasSupply f (suc n)
    → (i : ℕ) × IsGranted f n i (request f)
request-IsGranted f n valid small supply = elim (hit-IsFirst (grantable f) (suc f.max_index)) [
  | inl (i, first) ↦
      let grant : IsGrant f i (request f) =
        request-IsGrant f i valid (ground (arith, first.holds)) (omega (arith, first.below))
          (omega (arith, first.below)) (ground (arith, first.holds))
          (λ j lo l. ground (arith, first.none_before j l)) in
      (
        i,
        record {
          within = omega (arith, first.below);
          grant = grant;
          supply = omega (
            arith,
            ap (λ m. count (grantable (request f).0) (suc m)) grant.marking.same_max,
            ap from_bool first.holds,
            count_update (grantable f) (grantable (request f).0) (suc f.max_index) i false
                (λ j. grantable-after f i j (request f) first grant) first.below,
          );
        },
      )
  | inr none_left ↦ absurd (omega (arith, count_miss (grantable f) (suc f.max_index) none_left))
]
