-- ===== src/Startup/Clients.antt =====
-- The factories redis.client.factory.ts and elasticsearch.client.factory.ts under src/infrastructure, and
-- the settings of src/app.setup.ts.
pub mod Settings
use advanced_search_api.Base.{
  ℕ, ◌*◌, min, Text, str, Option, none, some, Bool, true, false, not, List, [], ◌∷◌, ◌++◌, ltb,
  length, if◌then◌else◌,
}
use advanced_search_api.Config.{AppConfiguration}
use advanced_search_api.Config.Environment.Checks.{is_production}

-- The options of the Redis client; `retry_strategy` takes the number of attempts to milliseconds.
pub record RedisOptions : Type 0 where
  pub url : Text
  pub enable_offline_queue : Bool
  pub max_retries_per_request : ℕ
  pub connect_timeout : ℕ
  pub retry_strategy : ℕ → ℕ

unfoldable pub create_redis_client : AppConfiguration → RedisOptions
create_redis_client config = record {
  url = config.redis;
  enable_offline_queue = false;
  max_retries_per_request = 1;
  connect_timeout = 2000;
  retry_strategy = λ times. min (times * 200) 2000;
}

pub data Credentials : Type 0 where
  api_key : Text → Credentials
  basic : Text → Text → Credentials

abbrev by_password : Option Text → Option Text → Option Credentials
by_password (some (c ∷ s)) (some (d ∷ t)) = some (basic (c ∷ s) (d ∷ t))
by_password _ _ = none

-- An empty text counts as absent.
unfoldable pub resolve_auth : Option Text → Option Text → Option Text → Option Credentials
resolve_auth none username password = by_password username password
resolve_auth (some []) username password = by_password username password
resolve_auth (some (c ∷ s)) username password = some (api_key (c ∷ s))

pub record ElasticsearchOptions : Type 0 where
  pub node : Text
  pub auth : Option Credentials
  pub reject_unauthorized : Bool
  pub request_timeout : ℕ
  pub max_retries : ℕ

unfoldable pub create_elasticsearch_client : AppConfiguration → ElasticsearchOptions
unfolding resolve_auth
create_elasticsearch_client config = record {
  node = config.elasticsearch.node;
  auth =
      resolve_auth config.elasticsearch.api_key config.elasticsearch.username
        config.elasticsearch.password;
  reject_unauthorized = config.elasticsearch.tls_reject_unauthorized;
  request_timeout = config.elasticsearch.request_timeout_ms;
  max_retries = config.elasticsearch.max_retries;
}

-- `string[] | boolean`.
pub data CorsOrigin : Type 0 where
  listed : List Text → CorsOrigin
  reflected : Bool → CorsOrigin

unfoldable pub resolve_cors_origin : AppConfiguration → CorsOrigin
resolve_cors_origin config =
    if ltb 0 (length config.app.cors_origins)
    then listed config.app.cors_origins
    else reflected (not (is_production config.app.node_env))

-- The parts of the application that `configureApp` installs, in order.
pub data Installed : Type 0 where
  trust_proxy : ℕ → Installed
  correlation_middleware metrics_middleware helmet_without_csp : Installed
  cors : CorsOrigin → Installed
  validation_pipe logging_interceptor exception_filter shutdown_hooks : Installed

-- Only Express has `set`.
unfoldable pub configure_proxy_trust : Bool → AppConfiguration → List Installed
configure_proxy_trust is_express config =
    if is_express then trust_proxy config.rate_limit.trust_proxy_hops ∷ [] else []

unfoldable pub configure_app : Bool → AppConfiguration → List Installed
unfolding configure_proxy_trust resolve_cors_origin
configure_app is_express config =
    configure_proxy_trust is_express config
    ++ correlation_middleware
      ∷ metrics_middleware
      ∷ helmet_without_csp
      ∷ cors (resolve_cors_origin config)
      ∷ validation_pipe
      ∷ logging_interceptor
      ∷ exception_filter
      ∷ shutdown_hooks
      ∷ []
