-- ===== src/Text/Length.antt =====
-- strlen on well-formed strings.
use si_stultum.Base.{ℕ, zero, suc, ◌+◌, ◌<◌, some, ◌≡◌, ◌≢◌, arith}
use si_stultum.Base.{ap}
use si_stultum.Memory.{Memory}
use si_stultum.Text.{strlen, strlen_loop}

-- At `str` there is a string of n bytes and its NUL.
pub record IsString (m : Memory) (str n : ℕ) : Type 0 where
  pub bytes : (i : ℕ) → i < n → m (str + i) ≢ 0
  pub nul : m (str + n) ≡ 0

strlen_loop-IsString :
    (fuel : ℕ) (m : Memory) (str n k left : ℕ)
    → IsString m str n
    → k + left ≡ n
    → left < fuel
    → strlen_loop fuel m str (str + k) ≡ some n
unfolding strlen_loop
strlen_loop-IsString zero m str n k left s e h = absurd (omega arith)
strlen_loop-IsString (suc fuel) m str n k zero s e h =
    let at : k ≡ n = omega arith in ground (arith, s.nul, ap (λ x. m (str + x)) at)
strlen_loop-IsString (suc fuel) m str n k (suc left) s e h =
    let next : str + k + 1 ≡ str + (k + 1) = omega arith in
    let rest = strlen_loop-IsString fuel m str n (k + 1) left s (omega arith) (omega arith) in
    ground (arith, s.bytes k (omega arith), rest, next)

-- With more fuel than the string has bytes, strlen returns their number.
pub strlen-IsString :
    (fuel : ℕ) (m : Memory) (str n : ℕ) → IsString m str n → n < fuel → strlen fuel m str ≡ some n
unfolding strlen
strlen-IsString fuel m str n s h =
    let start : str + 0 ≡ str = omega arith in
    rw start at (strlen_loop-IsString fuel m str n 0 n s (omega arith) h)
