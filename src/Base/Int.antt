-- ===== src/Base/Int.antt =====
-- `i64` values, under the library's names for integers.
use Prim.Native.Nat.{ℕ}
use mathlib.Core.Bool.{Bool, true}
use speech_core.Base.Tests.{leb}

-- `negsuc n` is -(n + 1).
pub data ℤ : Type 0 where
  pos : ℕ → ℤ
  negsuc : ℕ → ℤ

-- `value.max(0)`.
abbrev pub max_zero : ℤ → ℤ
max_zero (pos n) = pos n
max_zero (negsuc n) = pos 0

-- `value <= n` for a number that is not negative.
abbrev pub le_pos : ℤ → ℕ → Bool
le_pos (pos m) n = leb m n
le_pos (negsuc m) n = true
