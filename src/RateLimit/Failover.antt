-- ===== src/RateLimit/Failover.antt =====
-- src/infrastructure/rate-limit/failover-rate-limit.store.ts: count in Redis, and in this process
-- while Redis cannot be reached.
pub mod Outage
use advanced_search_api.Base.{
  ℕ, suc, ◌+◌, Text, str, Bool, true, false, List, [], ◌∷◌, ◌++◌, if◌then◌else◌,
}
use advanced_search_api.Shared.{Thrown, error_message, LogLine, info, warn, Result, ok, thrown}
use advanced_search_api.RateLimit.Memory.{RateLimitHit, MemoryStore, Request, hit}

-- `redis` is the state of the shared counter, `failovers` what `recordRateLimitFailover` counts.
pub record FailoverStore (S : Type 0) : Type 0 where
  pub degraded : Bool
  pub redis : S
  pub memory : MemoryStore
  pub failovers : ℕ
  pub log : List LogLine

abbrev pub fell_back : Thrown → LogLine
fell_back e = warn (
    str "Rate limit counter falling back to memory, limits are now per instance: "
    ++ error_message e)

abbrev pub back_again : LogLine
back_again = info (str "Rate limit counter is served by Redis again, limits are shared")

module _ {S : Type 0} where
  unfoldable pub report_degraded : Thrown → FailoverStore S → FailoverStore S
  unfolding error_message
  report_degraded e f =
      if f.degraded then f else record f { degraded = true; log = f.log ++ fell_back e ∷ [] }

  unfoldable pub recover : FailoverStore S → FailoverStore S
  recover f =
      if f.degraded then record f { degraded = false; log = f.log ++ back_again ∷ [] } else f

  -- The two ways in which `await this.redis.hit(key, windowMs)` ends.
  unfoldable pub after_redis :
      Text → ℕ → ℕ → Result RateLimitHit × S → FailoverStore S → RateLimitHit × FailoverStore S
  unfolding report_degraded recover
  after_redis key window_ms now (ok result, s) f = (result, recover (record f { redis = s }))
  after_redis key window_ms now (thrown e, s) f =
      let f' = report_degraded e (record f { redis = s; failovers = f.failovers + 1 }) in
      let (h, m) = hit key window_ms now f'.memory in (h, record f' { memory = m })

  module _ (redis_hit : Text → ℕ → S → Result RateLimitHit × S) where
    unfoldable pub failover_hit : Text → ℕ → ℕ → FailoverStore S → RateLimitHit × FailoverStore S
    unfolding after_redis
    failover_hit key window_ms now f =
        after_redis key window_ms now (redis_hit key window_ms f.redis) f

    unfoldable pub failover_run :
        List Request → FailoverStore S → List RateLimitHit × FailoverStore S
    unfolding failover_hit
    failover_run [] f = ([], f)
    failover_run (r ∷ rs) f =
        let (h, f') = failover_hit r.key r.window_ms r.at f in
        let (hs, f'') = failover_run rs f' in (h ∷ hs, f'')
