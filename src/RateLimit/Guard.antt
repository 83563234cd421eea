-- ===== src/RateLimit/Guard.antt =====
-- The guard of the rate limit: buildThrottlerOptions of src/presentation/rate-limit/rate-limit.options.ts,
-- src/rate-limit.module.ts and src/presentation/rate-limit/rate-limit.guard.ts. The guard class of
-- @nestjs/throttler is a parameter.
use advanced_search_api.Base.{ℕ, ◌*◌, Text, str, some, Bool, true, false, ◌≡◌}
use advanced_search_api.Auth.{Crypto, KeyIdentifier, ApiAuthConfig, create_key_identifier}
use advanced_search_api.Errors.{Exception, http, fields, one}
use advanced_search_api.RateLimit.Options.{
  RateLimitConfig, TrackedRequest, skip_if, resolve_limit, resolve_tracker,
}
use advanced_search_api.RateLimit.Throttler.{ThrottlerRecord}

-- The one throttler, and the options beside it.
pub record ThrottlerOptions : Type 0 where
  pub name : Text
  pub ttl : ℕ
  pub limit : TrackedRequest → ℕ
  pub skip_if : TrackedRequest → Bool
  pub get_tracker : TrackedRequest → Text

unfoldable pub build_throttler_options : RateLimitConfig → KeyIdentifier → ThrottlerOptions
unfolding resolve_limit skip_if resolve_tracker
build_throttler_options config identify = record {
  name = str "default";
  ttl = config.window_seconds * 1000;
  limit = λ request. resolve_limit request config;
  skip_if = λ request. skip_if config request;
  get_tracker = λ request. resolve_tracker request identify;
}

-- The options that the module hands to the library.
unfoldable pub throttler_module_options :
    Crypto → RateLimitConfig → ApiAuthConfig → ThrottlerOptions
unfolding build_throttler_options create_key_identifier
throttler_module_options crypto rate_limit auth =
    build_throttler_options rate_limit (create_key_identifier crypto auth.keys)

-- The library's guard over a storage with the state `S`. `handles` tells whether a request to a
-- route, by its controller and handler, is refused by `throwThrottlingException`. It is documented to
-- pass what `skipIf` names, without counting it, and otherwise to call the storage once, with a key of
-- the route, the tracker and the throttler, and to refuse what the record says is blocked.
pub record ThrottlerLibrary (S : Type 0) : Type 0 where
  pub generate_key : Text → Text → Text → Text
  pub handles :
      (Text → ℕ → ℕ → Text → S → ThrottlerRecord × S)
      → ThrottlerOptions
      → Text
      → TrackedRequest
      → S
      → Bool × S
  pub skipped :
      (increment : Text → ℕ → ℕ → Text → S → ThrottlerRecord × S) (o : ThrottlerOptions)
      (route : Text) (request : TrackedRequest) (s : S)
      → o.skip_if request ≡ true
      → handles increment o route request s ≡ (false, s)
  pub counted :
      (increment : Text → ℕ → ℕ → Text → S → ThrottlerRecord × S) (o : ThrottlerOptions)
      (route : Text) (request : TrackedRequest) (s : S)
      → o.skip_if request ≡ false
      → handles increment o route request s ≡ (
          let (told, s') =
            increment
              (generate_key route (o.get_tracker request) o.name)
              o.ttl
              (o.limit request)
              o.name
              s in
          (told.is_blocked, s'))

-- What `throwThrottlingException` throws.
unfoldable pub throttling_exception : Exception
throttling_exception =
    http 429 (str "HttpException") (str "Rate limit exceeded, retry after the window resets") (
      fields (some (one (str "Rate limit exceeded, retry after the window resets")))
        (some (str "Too Many Requests")))
