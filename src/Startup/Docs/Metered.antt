-- ===== src/Startup/Docs/Metered.antt =====
-- Every request for the contract is counted, and only a counted one with a key is served.
use advanced_search_api.Base.{ℕ, ◌*◌, ◌≤◌, Text, str, true, ◌≡◌, refl, ◌↔◌, ◌++◌, arith, is_some}
use advanced_search_api.Shared.{Result, ok, thrown}
use advanced_search_api.Auth.{
  Crypto, Header, KeyIdentifier, ApiAuthConfig, presented_key, create_key_identifier,
}
use advanced_search_api.RateLimit.Memory.{RateLimitHit}
use advanced_search_api.RateLimit.Options.{
  RateLimitConfig, TrackedRequest, resolve_tracker, docs_outcome, docs_rate_limit,
}
use advanced_search_api.Startup.Docs.{document, behind_limit, docs_request, docs_key_middleware}

abbrev pub WithinBudget : RateLimitConfig → Result RateLimitHit → Type 0
WithinBudget config (ok h) = h.total_hits ≤ config.default
WithinBudget config (thrown e) = Unit

served_iff :
    (config : RateLimitConfig) (identify : KeyIdentifier) (header : Header)
    (h : Result RateLimitHit)
    → (behind_limit identify header (docs_outcome config h) ≡ document)
      ↔ (WithinBudget config h × (is_some (identify (presented_key header)) ≡ true))
unfolding docs_outcome docs_key_middleware
served_iff config identify header (ok h) =
    ((λ e. (ground arith, ground arith)), (λ (w, k). ground arith))
served_iff config identify header (thrown t) = ((λ e. (tt, ground arith)), (λ (w, k). ground arith))

module _ {S : Type 0} (crypto : Crypto) (hit : Text → ℕ → S → Result RateLimitHit × S)
    (auth : ApiAuthConfig) (rate_limit : RateLimitConfig) (request : TrackedRequest) (s : S) where
  abbrev pub the_hit : Result RateLimitHit × S
  the_hit =
      hit (str "docs:" ++ resolve_tracker request (create_key_identifier crypto auth.keys))
        (rate_limit.window_seconds * 1000) s

  -- With authentication and rate limiting on, a request for the published contract is counted once in
  -- the docs bucket of its client, with or without a key; and it gets the document exactly if that
  -- count is within the default budget, or the store failed, and its key is a configured one.
  pub docs_request-IsMetered :
      auth.enabled ≡ true
      → rate_limit.enabled ≡ true
      → ((docs_request crypto hit auth rate_limit request s).1 ≡ the_hit.1)
        × (((docs_request crypto hit auth rate_limit request s).0 ≡ document) ↔ (
            WithinBudget rate_limit the_hit.0
            × (is_some (create_key_identifier crypto auth.keys (presented_key request.key_header))
                ≡ true)))
  unfolding docs_request docs_rate_limit docs_key_middleware docs_outcome
  docs_request-IsMetered on limited =
      rw (on, limited)
        (
          refl,
          served_iff rate_limit (create_key_identifier crypto auth.keys) request.key_header
              the_hit.0,
        )
