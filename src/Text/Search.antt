-- ===== src/Text/Search.antt =====
-- The first byte of a string for which a test holds.
use si_stultum.Base.{
  ℕ, zero, suc, ◌+◌, ◌-◌, ◌≤◌, ◌<◌, Bool, true, false, Option, none, some, ◌≡◌, ap, arith, ◌∙◌,
}
use si_stultum.Base.{◌==◌, if◌then◌else◌, Bool-cases, inl, inr}
use si_stultum.Memory.{Memory}
use si_stultum.Text.Length.{IsString}
use si_stultum.Text.Token.{tail-IsString}

-- The first byte from s on for which a test holds.
unfoldable pub search : (ℕ → Bool) → ℕ → Memory → ℕ → Option ℕ
search p zero m s = none
search p (suc fuel) m s = let rest = search p fuel m (s + 1) in if p (m s) then some s else rest

-- It is found k bytes behind s, and not before.
pub record IsFound (p : ℕ → Bool) (m : Memory) (s n : ℕ) (found : Option ℕ) : Type 0 where
  pub distance : ℕ
  pub within : distance ≤ n
  pub found_lem : found ≡ some (s + distance)
  pub not_before : (i : ℕ) → i < distance → p (m (s + i)) ≡ false
  pub holds : p (m (s + distance)) ≡ true

cons-IsFound :
    (p : ℕ → Bool) (m : Memory) (s n : ℕ) (found : Option ℕ)
    → p (m s) ≡ false
    → IsFound p m (s + 1) n found
    → IsFound p m s (suc n) found
cons-IsFound p m s n found miss rest = record {
  distance = suc rest.distance;
  within = omega (arith, rest.within);
  found_lem = rest.found_lem ∙ ap some (omega arith);
  not_before = λ i h. elim (Bool-cases (i == 0)) [
    | inl first ↦ ap (λ a. p (m a)) (ground arith) ∙ miss
    | inr later ↦ ap (λ a. p (m a)) (ground arith) ∙ rest.not_before (i - 1) (ground arith)
  ];
  holds = ap (λ a. p (m a)) (omega arith) ∙ rest.holds;
}

here-IsFound : (p : ℕ → Bool) (m : Memory) (s n : ℕ) → p (m s) ≡ true → IsFound p m s n (some s)
here-IsFound p m s n hit = record {
  distance = 0;
  within = omega arith;
  found_lem = ap some (omega arith);
  not_before = λ i h. absurd (omega arith);
  holds = ap (λ a. p (m a)) (omega arith) ∙ hit;
}

pub search-IsFound :
    (p : ℕ → Bool) (fuel : ℕ) (m : Memory) (s n : ℕ)
    → p 0 ≡ true
    → IsString m s n
    → n < fuel
    → IsFound p m s n (search p fuel m s)
unfolding search
search-IsFound p zero m s n at_nul str h = absurd (omega arith)
search-IsFound p (suc fuel) m s zero at_nul str h =
    let nul : p (m s) ≡ true = ap p (ap m (omega arith) ∙ str.nul) ∙ at_nul in
    rw nul (here-IsFound p m s 0 nul)
search-IsFound p (suc fuel) m s (suc n) at_nul str h = elim (Bool-cases (p (m s))) [
  | inl hit ↦ rw hit (here-IsFound p m s (suc n) hit)
  | inr miss ↦ rw miss (
      cons-IsFound p m s n _ miss
        (search-IsFound p fuel m (s + 1) n at_nul (tail-IsString m s n str) (omega arith)))
]
