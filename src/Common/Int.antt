-- ===== src/Common/Int.antt =====
-- Signed integers over the native numbers, such as Go's `time.Duration`.
use Prim.Native.Nat.{ℕ, zero, suc, ◌<◌}
use mathlib.Core.Bool.{Bool, true, false}
use mathlib.Core.Path.{◌≡◌}
use native.Mathlib.Omega.{arith}

-- `negsuc n` is -(n + 1).
pub data ℤ : Type 0 where
  pos : ℕ → ℤ
  negsuc : ℕ → ℤ

-- `0 < n`.
abbrev pub IsPositive : ℤ → Type 0
IsPositive (pos n) = 0 < n
IsPositive (negsuc n) = ⊥

-- `n <= 0`.
abbrev pub is_nonpositive : ℤ → Bool
is_nonpositive (pos (suc n)) = false
is_nonpositive (pos zero) = true
is_nonpositive (negsuc n) = true

pub is_nonpositive-IsPositive : (i : ℤ) → is_nonpositive i ≡ false → IsPositive i
is_nonpositive-IsPositive (pos zero) h = cc
is_nonpositive-IsPositive (pos (suc n)) h = omega arith
is_nonpositive-IsPositive (negsuc n) h = cc

pub is_nonpositive-pos : (i : ℤ) → IsPositive i → is_nonpositive i ≡ false
is_nonpositive-pos (pos zero) h = absurd (omega arith)
is_nonpositive-pos (pos (suc n)) h = cc
is_nonpositive-pos (negsuc n) h = absurd h
