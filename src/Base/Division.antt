-- ===== src/Base/Division.antt =====
-- The bounds of a quotient by a variable, and cancelling a factor.
use Prim.Native.Nat.{ℕ, ◌+◌, ◌*◌, ◌/◌, ◌≤◌, ◌<◌}
use native.Mathlib.Omega.{arith}

pub cancel_lt : (d a b : ℕ) → a * d < b * d → a < b
cancel_lt d a b h = grind arith

pub cancel_le : (d a b : ℕ) → 0 < d → a * d ≤ b * d → a ≤ b
cancel_le d a b p h = grind arith

pub quotient_bounds : (n m : ℕ) → 0 < m → (n / m * m ≤ n) × (n < (n / m + 1) * m)
quotient_bounds n m p = (grind arith, grind arith)
