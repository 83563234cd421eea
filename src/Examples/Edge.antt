-- ===== src/Examples/Edge.antt =====
-- Requests at the edge of the API: paths, keys, and error answers.
use advanced_search_api.Base.{
  Text, str, none, some, true, false, ◌≡◌, ◌≢◌, ◌↔◌, ◌⊎◌, refl, [], ◌∷◌, text_eq, text_eq_iff,
}
use advanced_search_api.Shared.Paths.{path_without_query, matches_path, operator_paths}
use advanced_search_api.Shared.Paths.Matching.{IsBelowAny}
use advanced_search_api.Auth.{
  Crypto, absent, single, presented_key, ApiAuthConfig, can_activate, create_key_identifier,
  to_client_id,
}
use advanced_search_api.Auth.Admission.{Sound, OneOf, PresentsOneOf, NoCollision, can_activate_iff}
use advanced_search_api.RateLimit.Options.{RateLimitConfig, TrackedRequest, resolve_tracker}
use advanced_search_api.RateLimit.Options.Clients.{resolve_tracker_owner}
use advanced_search_api.Errors.{
  Exception, http, plain, resolve_error, HttpRequest, catch, upgrade_method_not_allowed,
  is_api_path, is_allowed_method,
}

-- A digest without collisions, and an honest comparison.
abbrev pub plain_crypto : Crypto
plain_crypto = record { sha256 = λ t. t; timing_safe_equal = λ a b. text_eq a b; hex = λ d. d }

plain_crypto-Sound : Sound plain_crypto
plain_crypto-Sound = record { compares = λ a b. text_eq_iff a b }

abbrev pub secret : Text
secret = str "a-long-enough-secret-key"

abbrev pub guarded : ApiAuthConfig
guarded = record { enabled = true; keys = str "another-configured-key-1" ∷ secret ∷ [] }

guarded-NoCollision : NoCollision plain_crypto secret guarded.keys
guarded-NoCollision = (λ e. e, (λ e. e, tt))

-- "/healthy" is not below "/health".
healthy : matches_path (str "/healthy") operator_paths ≡ false
unfolding matches_path
healthy = refl

can_activate_iff_example :
    (can_activate plain_crypto guarded (str "/search?q=lamp") (single secret) ≡ true) ↔ (
      (true ≡ false)
      ⊎ IsBelowAny (path_without_query (str "/search?q=lamp")) operator_paths
      ⊎ PresentsOneOf plain_crypto plain_crypto-Sound (single secret) guarded.keys)
unfolding presented_key
can_activate_iff_example =
    can_activate_iff plain_crypto plain_crypto-Sound guarded (str "/search?q=lamp") (single secret)
      (λ key e. (λ x. x, (λ x. x, tt)))

let_in : can_activate plain_crypto guarded (str "/search?q=lamp") (single secret) ≡ true
unfolding can_activate
let_in = refl

kept_out : can_activate plain_crypto guarded (str "/search?q=lamp") (single (str "guess")) ≡ false
unfolding can_activate
kept_out = refl

abbrev pub keyed : TrackedRequest
keyed = record {
  path = some (str "/search");
  url = some (str "/search?q=lamp");
  ip = some (str "10.0.0.1");
  remote_address = none;
  key_header = single secret;
}

resolve_tracker_owner_example :
    ((secret ≢ [])
      × OneOf secret guarded.keys
      × (resolve_tracker keyed (create_key_identifier plain_crypto guarded.keys)
          ≡ to_client_id plain_crypto secret))
    ⊎ (¬ ((secret ≢ []) × OneOf secret guarded.keys)
        × (resolve_tracker keyed (create_key_identifier plain_crypto guarded.keys)
            ≡ str "10.0.0.1"))
unfolding presented_key
resolve_tracker_owner_example =
    resolve_tracker_owner plain_crypto plain_crypto-Sound guarded.keys keyed secret
      guarded-NoCollision refl

abbrev pub limits : RateLimitConfig
limits = record {
  enabled = true;
  window_seconds = 60;
  search = 60;
  autocomplete = 120;
  suggest = 60;
  default = 30;
  trust_proxy_hops = 0;
}

abbrev probe : TrackedRequest
probe = record {
  path = none;
  url = some (str "/health/ready?full=1");
  ip = none;
  remote_address = none;
  key_header = absent;
}

abbrev posted : HttpRequest
posted = record { method = str "POST"; url = str "/search"; key_header = single secret }

abbrev not_found : Exception
not_found = http 404 (str "NotFoundException") (str "Cannot POST /search") (plain (str "Not Found"))

told : (catch plain_crypto guarded posted not_found []).resolved_error.status_code ≡ 405
unfolding catch upgrade_method_not_allowed create_key_identifier resolve_error is_api_path
    is_allowed_method presented_key
told = refl

abbrev stray : HttpRequest
stray = record { method = str "POST"; url = str "/search"; key_header = absent }

abbrev lost : HttpRequest
lost = record { method = str "GET"; url = str "/no/such/path"; key_header = single (str "guess") }
