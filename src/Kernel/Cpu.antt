-- ===== src/Kernel/Cpu.antt =====
-- cpuid and the model-specific registers, src/kernel.h; nothing calls these functions.
use si_stultum.Base.{ℕ, ◌^◌, bit_and, ◌==◌, if◌then◌else◌, u32, List, [], ◌∷◌}

-- What the processor answers for a code in eax, ebx, ecx and edx, and its registers as low and high half.
pub record Cpu : Type 0 where
  pub answer : ℕ → ℕ × ℕ × ℕ × ℕ
  pub registers : ℕ → ℕ × ℕ

abbrev pub cpuid_flag_msr : ℕ
cpuid_flag_msr = 2 ^ 5

-- eax and edx.
unfoldable pub cpuid : ℕ → Cpu → ℕ × ℕ
cpuid code c = (u32 (c.answer code).0, u32 (c.answer code).3)

-- The four registers; the int that is returned is the first one.
unfoldable pub cpuid_string : ℕ → Cpu → List ℕ
cpuid_string code c = let (a, b, x, d) = c.answer code in u32 a ∷ (u32 b ∷ (u32 x ∷ (u32 d ∷ [])))

unfoldable pub cpu_has_msr : Cpu → ℕ
unfolding cpuid
cpu_has_msr c = bit_and (cpuid 1 c).1 cpuid_flag_msr

unfoldable pub cpu_get_msr : ℕ → Cpu → ℕ × ℕ
cpu_get_msr msr c = c.registers msr

unfoldable pub cpu_set_msr : ℕ → ℕ → ℕ → Cpu → Cpu
cpu_set_msr msr lo hi c = record c {
  registers = λ other. if other == msr then (u32 lo, u32 hi) else c.registers other;
}
