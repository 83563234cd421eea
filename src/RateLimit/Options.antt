-- ===== src/RateLimit/Options.antt =====
-- src/presentation/rate-limit/rate-limit.options.ts: which budget applies to a request and whose it
-- is; and src/presentation/common/docs-rate-limit.middleware.ts, the same for the published contract.
pub mod Clients
use advanced_search_api.Base.{
  ◌or◌, ℕ, ◌+◌, ◌*◌, ◌/◌, Text, str, Option, none, some, Bool, true, false, not, ◌||◌, List, [],
  ◌∷◌, ◌++◌, ltb, if◌then◌else◌, starts_with,
}
use advanced_search_api.Base.Int.{ℤ, seconds_up}
use advanced_search_api.Shared.{Result, ok, thrown}
use advanced_search_api.Shared.Paths.{index_of, slice_to, matches_path}
use advanced_search_api.Auth.{Header, KeyIdentifier, presented_key}
use advanced_search_api.RateLimit.Memory.{RateLimitHit}

-- `RateLimitConfig` of src/config/app-config.ts.
pub record RateLimitConfig : Type 0 where
  pub enabled : Bool
  pub window_seconds : ℕ
  pub search : ℕ
  pub autocomplete : ℕ
  pub suggest : ℕ
  pub default : ℕ
  pub trust_proxy_hops : ℕ

-- What `rate-limit.options.ts` reads of a request: `path`, `url`, `ip`, `socket.remoteAddress`, and
-- the key header.
pub record TrackedRequest : Type 0 where
  pub path : Option Text
  pub url : Option Text
  pub ip : Option Text
  pub remote_address : Option Text
  pub key_header : Header

unfoldable pub request_path : TrackedRequest → Text
unfolding index_of slice_to
request_path request =
    let raw = request.path or (request.url or []) in
    elim (index_of b'?' raw) [ none ↦ raw | some i ↦ slice_to i raw ]

abbrev pub exempt_paths : List Text
exempt_paths = str "/health" ∷ []

unfoldable pub is_exempt : Text → Bool
unfolding matches_path
is_exempt path = matches_path path exempt_paths

-- `skipIf`.
unfoldable pub skip_if : RateLimitConfig → TrackedRequest → Bool
unfolding is_exempt request_path
skip_if config request = not config.enabled || is_exempt (request_path request)

unfoldable pub resolve_limit : TrackedRequest → RateLimitConfig → ℕ
unfolding request_path starts_with
resolve_limit request config =
    let path = request_path request in
    if starts_with path (str "/search")
    then config.search
    else if starts_with path (str "/autocomplete")
    then config.autocomplete
    else if starts_with path (str "/suggest")
    then config.suggest
    else config.default

unfoldable pub resolve_tracker : TrackedRequest → KeyIdentifier → Text
unfolding presented_key
resolve_tracker request identify =
    identify (presented_key request.key_header)
    or (request.ip or (request.remote_address or str "unknown"))

-- The outcome of the docs middleware: the document's own handlers, or a 429 with `Retry-After`.
pub data DocsOutcome : Type 0 where
  next : DocsOutcome
  over_budget : ℕ → DocsOutcome

unfoldable pub docs_outcome : RateLimitConfig → Result RateLimitHit → DocsOutcome
unfolding seconds_up
docs_outcome config (ok h) =
    if ltb config.default h.total_hits then over_budget (seconds_up h.time_to_expire_ms) else next
docs_outcome config (thrown e) = next

-- The middleware over any store.
unfoldable pub docs_rate_limit :
    {S : Type 0}
    → (Text → ℕ → S → Result RateLimitHit × S)
    → RateLimitConfig
    → KeyIdentifier
    → TrackedRequest
    → S
    → DocsOutcome × S
unfolding resolve_tracker docs_outcome
docs_rate_limit hit config identify request s =
    let (h, s') =
      hit (str "docs:" ++ resolve_tracker request identify) (config.window_seconds * 1000) s in
    (docs_outcome config h, s')
