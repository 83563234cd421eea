-- ===== src/RateLimit/Redis.antt =====
-- src/infrastructure/rate-limit/redis-rate-limit.store.ts: the counter that Redis shares.
pub mod Script
use advanced_search_api.Base.{ℕ, Text, str, Bool, true, false, ◌++◌, ◌==◌, if◌then◌else◌}
use advanced_search_api.Base.Int.{ℤ, pos}
use advanced_search_api.Shared.{Result, ok, thrown}
use advanced_search_api.RateLimit.Memory.{RateLimitHit}

-- The commands of Redis that the script calls, over the state of the server, and the client's
-- way to run a script: the server runs it in one atomic step, or the call fails.
pub record Server (S : Type 0) : Type 0 where
  pub incr : Text → S → ℕ × S
  pub pexpire : Text → ℕ → S → S
  pub pttl : Text → S → ℤ
  pub evaluate : (S → (ℕ × ℤ) × S) → S → Result (ℕ × ℤ) × S

module _ {S : Type 0} (server : Server S) where
  open server use {incr, pexpire, pttl, evaluate}

  -- `HIT_SCRIPT`, statement by statement.
  unfoldable pub hit_script : Text → ℕ → S → (ℕ × ℤ) × S
  hit_script key window_ms s =
      let (hits, s') = incr key s in
      if hits == 1
      then ((hits, pos window_ms), pexpire key window_ms s')
      else ((hits, pttl key s'), s')

  abbrev to_hit : Result (ℕ × ℤ) × S → Result RateLimitHit × S
  to_hit (ok (total, left), s) = (ok (record { total_hits = total; time_to_expire_ms = left }), s)
  to_hit (thrown e, s) = (thrown e, s)

  unfoldable pub redis_hit : Text → ℕ → S → Result RateLimitHit × S
  unfolding hit_script
  redis_hit key window_ms s =
      to_hit (evaluate (hit_script (str "ratelimit:v1:" ++ key) window_ms) s)
