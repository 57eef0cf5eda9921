-- ===== src/Base/Integer.antt =====
-- Go's signed integers, without their bounds.
use Prim.Native.Nat.{ℕ, zero, suc}
use mathlib.Core.Option.{Option, none, some}

pub data ℤ : Type 0 where
  pos negsuc : ℕ → ℤ

-- A number that passes the test `n > 0`.
unfoldable pub positive : ℤ → Option ℕ
positive (pos zero) = none
positive (pos (suc n)) = some (suc n)
positive (negsuc n) = none
