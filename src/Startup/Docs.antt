-- ===== src/Startup/Docs.antt =====
-- src/swagger.setup.ts: what stands in front of the published contract.
pub mod Metered
use advanced_search_api.Base.{
  ℕ, ◌*◌, Text, str, Option, none, some, Bool, true, false, List, [], ◌∷◌, ◌++◌, if◌then◌else◌,
}
use advanced_search_api.Shared.{Result, ok, thrown}
use advanced_search_api.Auth.{
  Crypto, Header, KeyIdentifier, ApiAuthConfig, presented_key, create_key_identifier,
}
use advanced_search_api.RateLimit.Memory.{RateLimitHit}
use advanced_search_api.RateLimit.Options.{
  RateLimitConfig, TrackedRequest, DocsOutcome, next, over_budget, docs_rate_limit,
}

abbrev pub docs_paths : List Text
docs_paths = str "/docs" ∷ str "/docs-json" ∷ []

-- The document, a 401, or a 429 with its `Retry-After`.
pub data DocsAnswer : Type 0 where
  document unauthorized : DocsAnswer
  too_many_requests : ℕ → DocsAnswer

abbrev identified : Option Text → DocsAnswer
identified none = unauthorized
identified (some client) = document

unfoldable pub docs_key_middleware : KeyIdentifier → Header → DocsAnswer
unfolding presented_key
docs_key_middleware identify header = identified (identify (presented_key header))

abbrev pub behind_limit : KeyIdentifier → Header → DocsOutcome → DocsAnswer
behind_limit identify header next = docs_key_middleware identify header
behind_limit identify header (over_budget seconds) = too_many_requests seconds

module _ {S : Type 0} (crypto : Crypto) (hit : Text → ℕ → S → Result RateLimitHit × S)
    (auth : ApiAuthConfig) (rate_limit : RateLimitConfig) where
  -- A request for one of the paths, through the middlewares in the order in which they are mounted.
  unfoldable pub docs_request : TrackedRequest → S → DocsAnswer × S
  unfolding create_key_identifier docs_rate_limit docs_key_middleware
  docs_request request s =
      let identify = create_key_identifier crypto auth.keys in
      if auth.enabled
      then (if rate_limit.enabled
          then (let (outcome, s') = docs_rate_limit hit rate_limit identify request s in
              (behind_limit identify request.key_header outcome, s'))
          else (docs_key_middleware identify request.key_header, s))
      else (document, s)
