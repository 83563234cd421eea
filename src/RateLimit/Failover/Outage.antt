-- ===== src/RateLimit/Failover/Outage.antt =====
-- What the fail-over store does over a run of requests: its log and its counter, and its answers
-- while Redis is away.
use advanced_search_api.Base.{
  ℕ, suc, ◌+◌, Text, Bool, true, false, ◌≡◌, refl, ◌∙◌, ap, arith, List, [], ◌∷◌, ◌++◌, length,
}
use mathlib.Core.Path.{ap₂}
use advanced_search_api.Shared.{Thrown, LogLine, info, warn, error, Result, ok, thrown}
use advanced_search_api.RateLimit.Memory.{RateLimitHit, Request, hit, run}
use advanced_search_api.RateLimit.Failover.{
  FailoverStore, fell_back, back_again, report_degraded, recover, after_redis, failover_hit,
  failover_run,
}

unfoldable pub warnings : List LogLine → ℕ
warnings [] = 0
warnings (warn _ ∷ l) = suc (warnings l)
warnings (_ ∷ l) = warnings l

unfoldable pub notices : List LogLine → ℕ
notices [] = 0
notices (info _ ∷ l) = suc (notices l)
notices (_ ∷ l) = notices l

warnings-append :
    (l : List LogLine) (m : List LogLine) → warnings (l ++ m) ≡ warnings l + warnings m
unfolding warnings
warnings-append [] m = omega arith
warnings-append (info _ ∷ l) m = warnings-append l m
warnings-append (warn _ ∷ l) m = omega (arith, warnings-append l m)
warnings-append (error _ _ ∷ l) m = warnings-append l m

notices-append : (l : List LogLine) (m : List LogLine) → notices (l ++ m) ≡ notices l + notices m
unfolding notices
notices-append [] m = omega arith
notices-append (warn _ ∷ l) m = notices-append l m
notices-append (info _ ∷ l) m = omega (arith, notices-append l m)
notices-append (error _ _ ∷ l) m = notices-append l m

abbrev pub bit : Bool → ℕ
bit true = 1
bit false = 0

-- One warning opens each outage and one notice closes it.
abbrev pub IsPaired : {S : Type 0} → FailoverStore S → Type 0
IsPaired f = warnings f.log ≡ notices f.log + bit f.degraded

module _ {S : Type 0} where
  report_degraded-IsPaired :
      (e : Thrown) (f : FailoverStore S) → IsPaired f → IsPaired (report_degraded e f)
  unfolding report_degraded warnings notices
  report_degraded-IsPaired e f h =
      ground
        (arith, warnings-append f.log (fell_back e ∷ []), notices-append f.log (fell_back e ∷ []))

  recover-IsPaired : (f : FailoverStore S) → IsPaired f → IsPaired (recover f)
  unfolding recover warnings notices
  recover-IsPaired f h =
      ground
        (arith, warnings-append f.log (back_again ∷ []), notices-append f.log (back_again ∷ []))

  after_redis-IsPaired :
      (key : Text) (window_ms now : ℕ) (r : Result RateLimitHit × S) (f : FailoverStore S)
      → IsPaired f
      → IsPaired (after_redis key window_ms now r f).1
  unfolding after_redis
  after_redis-IsPaired key window_ms now (ok result, s) f h =
      recover-IsPaired (record f { redis = s }) h
  after_redis-IsPaired key window_ms now (thrown e, s) f h =
      report_degraded-IsPaired e (record f { redis = s; failovers = f.failovers + 1 }) h

  module _ (redis_hit : Text → ℕ → S → Result RateLimitHit × S) where
    -- Whatever Redis does over a run of requests, the log holds one warning for each outage and one
    -- notice for each recovery: as many warnings as notices, and one more while an outage lasts.
    pub failover_run-IsPaired :
        (rs : List Request) (f : FailoverStore S)
        → IsPaired f
        → IsPaired (failover_run redis_hit rs f).1
    unfolding failover_run
    failover_run-IsPaired [] f h = h
    failover_run-IsPaired (r ∷ rs) f h =
        failover_run-IsPaired rs (failover_hit redis_hit r.key r.window_ms r.at f).1
          (after_redis-IsPaired r.key r.window_ms r.at (redis_hit r.key r.window_ms f.redis) f h)

    abbrev pub IsAway : Type 0
    IsAway =
        (key : Text) (window_ms : ℕ) (s : S)
        → (e : Thrown) × (s' : S) × (redis_hit key window_ms s ≡ (thrown e, s'))

    memory-report_degraded :
        (e : Thrown) (f : FailoverStore S) → (report_degraded e f).memory ≡ f.memory
    unfolding report_degraded
    memory-report_degraded e f = ground arith

    failovers-report_degraded :
        (e : Thrown) (f : FailoverStore S) → (report_degraded e f).failovers ≡ f.failovers
    unfolding report_degraded
    failovers-report_degraded e f = ground arith

    hit_away :
        (e : Thrown) (s' : S) (r : Request) (f : FailoverStore S)
        → redis_hit r.key r.window_ms f.redis ≡ (thrown e, s')
        → ((failover_hit redis_hit r.key r.window_ms r.at f).0
            ≡ (hit r.key r.window_ms r.at f.memory).0)
          × ((failover_hit redis_hit r.key r.window_ms r.at f).1.memory
              ≡ (hit r.key r.window_ms r.at f.memory).1)
          × ((failover_hit redis_hit r.key r.window_ms r.at f).1.failovers ≡ f.failovers + 1)
    unfolding failover_hit
    hit_away e s' r f h =
        let f' : FailoverStore S = record f { redis = s'; failovers = f.failovers + 1 } in
        let m = memory-report_degraded e f' in
        let n = failovers-report_degraded e f' in rw h (rw m, rw m, n)

    -- While every call to Redis fails, the answers are those of the in-memory store, its counts go
    -- on from what it held, and each request is counted as one fail-over: no request passes uncounted.
    pub failover_run_away :
        (away : IsAway) (rs : List Request) (f : FailoverStore S)
        → ((failover_run redis_hit rs f).0 ≡ (run rs f.memory).0)
          × ((failover_run redis_hit rs f).1.memory ≡ (run rs f.memory).1)
          × ((failover_run redis_hit rs f).1.failovers ≡ f.failovers + length rs)
    unfolding failover_run run
    failover_run_away away [] f = (refl, refl, omega arith)
    failover_run_away away (r ∷ rs) f =
        let (e, s', h) = away r.key r.window_ms f.redis in
        let (same, memory, count) = hit_away e s' r f h in
        let next = (failover_hit redis_hit r.key r.window_ms r.at f).1 in
        let (answers, rest, counts) = failover_run_away away rs next in
        (
          ap₂ ◌∷◌ same (answers ∙ ap (λ m. (run rs m).0) memory),
          rest ∙ ap (λ m. (run rs m).1) memory,
          omega arith,
        )
