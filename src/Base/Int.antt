-- ===== src/Base/Int.antt =====
-- Signed integers over the native numbers, under the library's names.
use Prim.Native.Nat.{ℕ, suc}
use mathlib.Core.Bool.{Bool, false}
use node_gemfire.Base.Tests.{ltb}

-- `negsuc n` is -(n + 1).
pub data ℤ : Type 0 where
  pos : ℕ → ℤ
  negsuc : ℕ → ℤ

-- `value > limit` and `value < -limit`
abbrev pub is_above : ℕ → ℤ → Bool
is_above limit (pos n) = ltb limit n
is_above limit (negsuc n) = false

abbrev pub is_below_neg : ℕ → ℤ → Bool
is_below_neg limit (pos n) = false
is_below_neg limit (negsuc n) = ltb limit (suc n)
