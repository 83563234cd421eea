-- ===== src/Cache/Jitter.antt =====
-- The jittered lifetime stays within a tenth of the configured one, and is never 0.
use advanced_search_api.Base.{ℕ, zero, suc, ◌+◌, ◌*◌, ◌/◌, ◌≤◌, ◌<◌, arith}
use advanced_search_api.Base.Division.{cancel_lt, cancel_le, quotient_bounds}
use advanced_search_api.Cache.{with_jitter}

-- The rounding at the scale of the draw: `t` is the lifetime and `q` the rounded quotient.
rounded :
    (r d t q : ℕ)
    → r < d
    → q * (20 * d) ≤ 2 * (t * (9 * d + 2 * r)) + 10 * d
    → 2 * (t * (9 * d + 2 * r)) + 10 * d < (q + 1) * (20 * d)
    → (9 * t + 5 < 10 * q + 10) × (10 * q ≤ 11 * t + 5)
rounded r d t q h lo hi =
    let scaled : t * r ≤ t * d = grind arith in
    (
      cancel_lt d (9 * t + 5) (10 * q + 10) (omega arith),
      cancel_le d (10 * q) (11 * t + 5) (omega arith) (omega arith),
    )

-- For every draw of `Math.random()`, which is below 1, and every positive lifetime: the result is
-- positive, and differs from the lifetime by at most a tenth of it and the rounding of half a second.
pub with_jitter_bounds :
    (r d ttl : ℕ)
    → r < d
    → 0 < ttl
    → (1 ≤ with_jitter r d ttl)
      × (9 * ttl ≤ 10 * with_jitter r d ttl + 5)
      × (10 * with_jitter r d ttl ≤ 11 * ttl + 5)
unfolding with_jitter
with_jitter_bounds r d zero h p = absurd (omega arith)
with_jitter_bounds r d (suc n) h p =
    let n' = 2 * (suc n * (9 * d + 2 * r)) + 10 * d in
    let (lo, hi) = quotient_bounds n' (20 * d) (omega arith) in
    let (above, below) = rounded r d (suc n) (n' / (20 * d)) h lo hi in
    (omega arith, omega arith, omega arith)
