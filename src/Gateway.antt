-- ===== src/Gateway.antt =====
-- src/app.module.ts and src/api-auth.module.ts: the two global guards in the order of their
-- registration, in front of every route.
pub mod Flood
use advanced_search_api.Base.{
  ℕ, Text, str, some, Bool, true, false, List, [], ◌∷◌, ◌or◌, if◌then◌else◌,
}
use advanced_search_api.Auth.{Crypto, ApiAuthConfig, can_activate}
use advanced_search_api.Errors.{Exception, http, fields, one}
use advanced_search_api.RateLimit.Memory.{RateLimitHit, MemoryStore, hit}
use advanced_search_api.RateLimit.Options.{RateLimitConfig, TrackedRequest}
use advanced_search_api.RateLimit.Throttler.{increment}
use advanced_search_api.RateLimit.Guard.{
  ThrottlerLibrary, throttler_module_options, throttling_exception,
}

pub data Verdict : Type 0 where
  admitted : Verdict
  refused : Exception → Verdict

-- What the key guard throws.
unfoldable pub unauthorized_exception : Exception
unauthorized_exception =
    http 401 (str "UnauthorizedException") (str "A valid x-api-key header is required")
      (fields (some (one (str "A valid x-api-key header is required"))) (some (str "Unauthorized")))

-- The guards that follow one that has answered.
abbrev pub then_guard : {S : Type 0} → Verdict × S → Verdict → Verdict × S
then_guard (admitted, s) next = (next, s)
then_guard (refused e, s) next = (refused e, s)

unfoldable pub api_key_guard : Crypto → ApiAuthConfig → TrackedRequest → Verdict
unfolding can_activate unauthorized_exception
api_key_guard crypto auth request =
    if can_activate crypto auth (request.url or []) request.key_header
    then admitted
    else refused unauthorized_exception

module _ {S : Type 0} (library : ThrottlerLibrary S) (crypto : Crypto)
    (rate_limit : RateLimitConfig) (auth : ApiAuthConfig) where
  unfoldable pub rate_limit_guard :
      (Text → ℕ → S → RateLimitHit × S) → Text → TrackedRequest → S → Verdict × S
  unfolding throttler_module_options throttling_exception increment
  rate_limit_guard store_hit route request s =
      let (blocked, s') =
        library.handles (increment store_hit) (throttler_module_options crypto rate_limit auth)
          route request s in
      (if blocked then refused throttling_exception else admitted, s')

  unfoldable pub global_guards :
      (Text → ℕ → S → RateLimitHit × S) → Text → TrackedRequest → S → Verdict × S
  unfolding rate_limit_guard api_key_guard
  global_guards store_hit route request s =
      then_guard (rate_limit_guard store_hit route request s) (api_key_guard crypto auth request)

-- A request, and the time at which it comes.
pub record Arrival : Type 0 where
  pub request : TrackedRequest
  pub at : ℕ

module _ (library : ThrottlerLibrary MemoryStore) (crypto : Crypto) (rate_limit : RateLimitConfig)
    (auth : ApiAuthConfig) (route : Text) where
  -- What the guards say to requests for one route, one after the other, over the store in memory.
  unfoldable pub gate : List Arrival → MemoryStore → List Verdict
  unfolding global_guards hit
  gate [] s = []
  gate (a ∷ more) s =
      let (verdict, s') =
        global_guards library crypto rate_limit auth (λ k w t. hit k w a.at t) route a.request s in
      verdict ∷ gate more s'
