-- ===== src/Config.antt =====
-- src/config: the configuration that is built from the validated environment, in app-config.ts.
pub mod Environment
pub mod Strict
use advanced_search_api.Base.{
  ℕ, zero, suc, Text, str, Option, none, some, Bool, true, false, ◌&&◌, List, [], ◌∷◌, ◌++◌,
  if◌then◌else◌, ◌or◌, ltb, length,
}
use advanced_search_api.Base.Trim.{trim, split}
use advanced_search_api.Base.Dict.{Dict, put}
use advanced_search_api.Shared.Paths.{index_of, slice_to}
use advanced_search_api.Domain.{Number}
use advanced_search_api.Auth.{ApiAuthConfig}
use advanced_search_api.RateLimit.Options.{RateLimitConfig}
use advanced_search_api.Search.Query.Request.{RelevanceConfig}
use advanced_search_api.Search.Adapter.{SearchConfig}
use advanced_search_api.Config.Environment.{Env, NodeEnv, LogLevel}
use advanced_search_api.Config.Environment.Checks.{keep_filled}

pub record AppRuntimeConfig : Type 0 where
  pub node_env : NodeEnv
  pub port : ℕ
  pub cors_origins : List Text

pub record ElasticsearchConfig : Type 0 where
  pub node : Text
  pub api_key : Option Text
  pub username : Option Text
  pub password : Option Text
  pub index : Text
  pub tls_reject_unauthorized : Bool
  pub request_timeout_ms : ℕ
  pub max_retries : ℕ

pub record CacheConfig : Type 0 where
  pub search_ttl_seconds : ℕ
  pub autocomplete_ttl_seconds : ℕ

pub record ObservabilityConfig : Type 0 where
  pub log_level : LogLevel
  pub log_pretty : Bool
  pub metrics_enabled : Bool
  pub metrics_token : Option Text
  pub otlp_endpoint : Option Text
  pub otlp_headers : Dict Text
  pub service_name : Text
  pub traces_sampler_ratio : Number
  pub metrics_export_enabled : Bool
  pub metric_export_interval_ms : ℕ
  pub loki_url : Option Text
  pub loki_username : Option Text
  pub loki_password : Option Text

-- `redis` is its URL.
pub record AppConfiguration : Type 0 where
  pub app : AppRuntimeConfig
  pub elasticsearch : ElasticsearchConfig
  pub redis : Text
  pub cache : CacheConfig
  pub search : SearchConfig
  pub relevance : RelevanceConfig
  pub rate_limit : RateLimitConfig
  pub api_auth : ApiAuthConfig
  pub observability : ObservabilityConfig

unfoldable pub slice_from : ℕ → Text → Text
slice_from zero s = s
slice_from (suc n) [] = []
slice_from (suc n) (c ∷ s) = slice_from n s

unfoldable pub non_empty_items : List Text → List Text
unfolding trim
non_empty_items [] = []
non_empty_items (t ∷ ts) = keep_filled (trim t) (non_empty_items ts)

-- An absent and an empty text give no items.
unfoldable pub parse_list : Option Text → List Text
unfolding non_empty_items split
parse_list none = []
parse_list (some []) = []
parse_list (some (c ∷ s)) = non_empty_items (split b',' (c ∷ s))

unfoldable pub parse_origins : Option Text → List Text
unfolding parse_list
parse_origins raw = parse_list raw

-- `decode` is `decodeURIComponent`, which fails on a malformed escape.
unfoldable pub percent_decode : (Text → Option Text) → Text → Text
percent_decode decode value = decode value or value

abbrev add_header : Text → Text → Dict Text → Dict Text
add_header key value headers =
    if ltb 0 (length key) && ltb 0 (length value) then put key value headers else headers

-- One pair, by the place of its first "=".
abbrev add_pair : (Text → Option Text) → Text → Option ℕ → Dict Text → Dict Text
add_pair decode pair none headers = headers
add_pair decode pair (some zero) headers = headers
add_pair decode pair (some (suc i)) headers =
    add_header (percent_decode decode (trim (slice_to (suc i) pair)))
      (percent_decode decode (trim (slice_from (suc (suc i)) pair))) headers

unfoldable pub add_pairs : (Text → Option Text) → List Text → Dict Text → Dict Text
unfolding percent_decode trim slice_to slice_from index_of put
add_pairs decode [] headers = headers
add_pairs decode (p ∷ ps) headers =
    add_pairs decode ps (add_pair decode p (index_of b'=' p) headers)

unfoldable pub parse_otlp_headers : (Text → Option Text) → Option Text → Dict Text
unfolding add_pairs split
parse_otlp_headers decode none = []
parse_otlp_headers decode (some []) = []
parse_otlp_headers decode (some (c ∷ s)) = add_pairs decode (split b',' (c ∷ s)) []

unfoldable pub build_config : (Text → Option Text) → Env → AppConfiguration
unfolding parse_origins parse_list parse_otlp_headers
build_config decode env = record {
  app = record {
    node_env = env.node_env;
    port = env.port;
    cors_origins = parse_origins env.cors_origins;
  };
  elasticsearch = record {
    node = env.elasticsearch_node;
    api_key = env.elasticsearch_api_key;
    username = env.elasticsearch_username;
    password = env.elasticsearch_password;
    index = env.elasticsearch_index;
    tls_reject_unauthorized = env.elasticsearch_tls_reject_unauthorized;
    request_timeout_ms = env.elasticsearch_request_timeout_ms;
    max_retries = env.elasticsearch_max_retries;
  };
  redis = env.redis_url;
  cache = record {
    search_ttl_seconds = env.cache_ttl_search;
    autocomplete_ttl_seconds = env.cache_ttl_autocomplete;
  };
  search = record {
    default_page_size = env.search_default_page_size;
    max_page_size = env.search_max_page_size;
    suggest_max_hits = env.search_suggest_max_hits;
    max_result_window = env.search_max_result_window;
  };
  relevance = record {
    popularity_factor = env.relevance_popularity_factor;
    recency_scale = env.relevance_recency_scale;
    recency_decay = env.relevance_recency_decay;
  };
  rate_limit = record {
    enabled = env.rate_limit_enabled;
    window_seconds = env.rate_limit_window_seconds;
    search = env.rate_limit_search;
    autocomplete = env.rate_limit_autocomplete;
    suggest = env.rate_limit_suggest;
    default = env.rate_limit_default;
    trust_proxy_hops = env.trust_proxy_hops;
  };
  api_auth = record { enabled = env.api_auth_enabled; keys = parse_list env.api_keys };
  observability = record {
    log_level = env.log_level;
    log_pretty = env.log_pretty;
    metrics_enabled = env.metrics_enabled;
    metrics_token = env.metrics_token;
    otlp_endpoint = env.otel_exporter_otlp_endpoint;
    otlp_headers = parse_otlp_headers decode env.otel_exporter_otlp_headers;
    service_name = env.otel_service_name;
    traces_sampler_ratio = env.otel_traces_sampler_ratio;
    metrics_export_enabled = env.otel_metrics_export_enabled;
    metric_export_interval_ms = env.otel_metric_export_interval_ms;
    loki_url = env.loki_url;
    loki_username = env.loki_username;
    loki_password = env.loki_password;
  };
}
