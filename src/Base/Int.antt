-- ===== src/Base/Int.antt =====
-- Whole numbers that may be negative: `negsuc n` is -(n + 1).
use Prim.Native.Nat.{ℕ, ◌+◌, ◌/◌}

pub data ℤ : Type 0 where
  pos : ℕ → ℤ
  negsuc : ℕ → ℤ

-- `Math.max(0, Math.ceil(ms / 1000))`: a negative number of milliseconds rounds up to at most 0.
unfoldable pub seconds_up : ℤ → ℕ
seconds_up (pos n) = (n + 999) / 1000
seconds_up (negsuc n) = 0
