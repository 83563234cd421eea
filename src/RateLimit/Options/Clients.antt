-- ===== src/RateLimit/Options/Clients.antt =====
-- Whose budget a request spends, and what needs neither a budget nor a key.
use advanced_search_api.Base.{
  ◌or◌, ℕ, Text, str, Option, none, some, Bool, true, false, ◌≡◌, ◌≢◌, refl, ◌⊎◌, inl, inr, List,
  [], ◌∷◌, ◌++◌, arith, is_some, Bool-cases, text_eq,
}
use advanced_search_api.Base.Dict.{get, Distinct}
use advanced_search_api.Shared.Paths.{operator_paths, path_without_query}
use advanced_search_api.Shared.Paths.Matching.{IsBelow, IsBelowAny, matches_path_iff}
use advanced_search_api.Auth.{
  Crypto, absent, presented_key, create_key_identifier, to_client_id, ApiAuthConfig, can_activate,
}
use advanced_search_api.Auth.Admission.{Sound, NoCollision, OneOf, identified_iff}
use advanced_search_api.RateLimit.Memory.{MemoryStore, hit}
use advanced_search_api.RateLimit.Memory.Sweep.{live}
use advanced_search_api.RateLimit.Memory.Counting.{hit_other}
use advanced_search_api.RateLimit.Options.{
  RateLimitConfig, TrackedRequest, resolve_tracker, is_exempt, skip_if, request_path, exempt_paths,
}

module _ (crypto : Crypto) (sound : Sound crypto) (keys : List Text) where
  identified_id :
      (key : Text)
      → is_some (create_key_identifier crypto keys (some key)) ≡ true
      → create_key_identifier crypto keys (some key)
        ≡ some (to_client_id crypto (crypto.sha256 key))
  unfolding create_key_identifier
  identified_id [] h = cc
  identified_id (c ∷ s) h = ground arith

  -- A request that presents a configured key spends the budget of that key, from any address; one
  -- that presents another key, or an empty one, spends the budget of its address, so a caller gets
  -- no further budget by inventing keys.
  pub resolve_tracker_owner :
      (request : TrackedRequest) (key : Text)
      → NoCollision crypto key keys
      → presented_key request.key_header ≡ some key
      → ((key ≢ [])
          × OneOf key keys
          × (resolve_tracker request (create_key_identifier crypto keys)
              ≡ to_client_id crypto (crypto.sha256 key)))
        ⊎ (¬ ((key ≢ []) × OneOf key keys)
            × (resolve_tracker request (create_key_identifier crypto keys)
                ≡ (request.ip or (request.remote_address or str "unknown"))))
  unfolding resolve_tracker
  resolve_tracker_owner request key n e =
      let (found, find) = identified_iff crypto sound keys key n in
      elim (Bool-cases (is_some (create_key_identifier crypto keys (some key)))) [
        | inl known ↦
            inl ((found known).0, (found known).1, rw e (rw (identified_id key known) refl))
        | inr unknown ↦ inr (λ h. go unknown (find h), rw e (address _ unknown))
      ]
    where
      go : {b : Bool} → b ≡ false → b ≡ true → ⊥
      go p q = cc

      address :
          (o : Option Text)
          → is_some o ≡ false
          → (o or (request.ip or (request.remote_address or str "unknown")))
            ≡ (request.ip or (request.remote_address or str "unknown"))
      address none h = refl
      address (some t) h = cc

health_only :
    (path : Text)
    → IsBelowAny (path_without_query path) exempt_paths
    → IsBelow (path_without_query path) (str "/health")
health_only path (inl b) = b
health_only path (inr n) = absurd n

-- Where the rate limiter is on, a request that it skips is for "/health" or below, and needs no key.
pub skip_if_needs_no_key :
    (crypto : Crypto) (auth : ApiAuthConfig) (config : RateLimitConfig) (request : TrackedRequest)
    → config.enabled ≡ true
    → skip_if config request ≡ true
    → IsBelow (path_without_query (request_path request)) (str "/health")
      × (can_activate crypto auth (request_path request) absent ≡ true)
unfolding skip_if can_activate is_exempt
skip_if_needs_no_key crypto auth config request on h =
    let below =
      health_only (request_path request)
        ((matches_path_iff (request_path request) exempt_paths).0 (ground arith)) in
    let operator = (matches_path_iff (request_path request) operator_paths).1 (inl below) in
    (below, ground arith)

-- A request for the published contract leaves the windows of every other bucket as they were.
pub docs_separate :
    (client other : Text) (window_ms now : ℕ) (s : MemoryStore)
    → Distinct s.windows
    → live now
        (get (str "default:" ++ other) (hit (str "docs:" ++ client) window_ms now s).1.windows)
      ≡ live now (get (str "default:" ++ other) s.windows)
unfolding text_eq
docs_separate client other window_ms now s d =
    hit_other (str "docs:" ++ client) (str "default:" ++ other) window_ms now s d refl
