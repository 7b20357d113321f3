-- ===== src/Prelude/Ints.antt =====
-- Signed integers over the native numbers, under the library's names; `negsuc n` is -(n + 1).
use Prim.Native.Nat.{ℕ, zero, suc, ◌≤◌}

pub data ℤ : Type 0 where
  pos negsuc : ℕ → ℤ

-- `-n`
abbrev pub negated : ℕ → ℤ
negated zero = pos 0
negated (suc n) = negsuc n

-- Between two numbers, the ends included.
abbrev pub IsBetween : ℕ → ℕ → ℤ → Type 0
IsBetween low high (pos n) = (low ≤ n) × (n ≤ high)
IsBetween low high (negsuc n) = ⊥

abbrev pub IsAtLeast : ℕ → ℤ → Type 0
IsAtLeast low (pos n) = low ≤ n
IsAtLeast low (negsuc n) = ⊥
