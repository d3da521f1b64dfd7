-- ===== src/Prelude/Int.antt =====
-- The Go int where it can be negative, over the native numbers under the library's names.
use Prim.Native.Nat.{ℕ}

-- `negsuc n` is -(n + 1).
pub data ℤ : Type 0 where
  pos : ℕ → ℤ
  negsuc : ℕ → ℤ
