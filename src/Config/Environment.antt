-- ===== src/Config/Environment.antt =====
-- src/config/env.schema.ts: the environment. zod's parsing of single texts into numbers and Booleans is
-- not modelled: the model starts from the values that the variables hold once they are coerced.
pub mod Checks
use advanced_search_api.Base.{
  ◌or◌, ℕ, suc, Text, str, Option, none, some, Bool, true, false, not, ◌&&◌, ◌||◌, List, [], ◌∷◌,
  leb, ltb, every, length, is_some,
}
use advanced_search_api.Base.Trim.{trim, split}
use advanced_search_api.Domain.{Number, not_finite, negative, fraction}

pub data NodeEnv : Type 0 where
  development test production : NodeEnv

pub data LogLevel : Type 0 where
  level_fatal level_error level_warn level_info level_debug level_trace : LogLevel

-- The variables that are set.
pub record Supplied : Type 0 where
  pub node_env : Option NodeEnv
  pub port : Option ℕ
  pub cors_origins : Option Text
  pub elasticsearch_node : Option Text
  pub elasticsearch_api_key : Option Text
  pub elasticsearch_username : Option Text
  pub elasticsearch_password : Option Text
  pub elasticsearch_index : Option Text
  pub elasticsearch_tls_reject_unauthorized : Option Bool
  pub elasticsearch_request_timeout_ms : Option ℕ
  pub elasticsearch_max_retries : Option ℕ
  pub redis_url : Option Text
  pub cache_ttl_search : Option ℕ
  pub cache_ttl_autocomplete : Option ℕ
  pub search_default_page_size : Option ℕ
  pub search_max_page_size : Option ℕ
  pub search_suggest_max_hits : Option ℕ
  pub search_max_result_window : Option ℕ
  pub relevance_popularity_factor : Option Number
  pub relevance_recency_scale : Option Text
  pub relevance_recency_decay : Option Number
  pub rate_limit_enabled : Option Bool
  pub rate_limit_window_seconds : Option ℕ
  pub rate_limit_search : Option ℕ
  pub rate_limit_autocomplete : Option ℕ
  pub rate_limit_suggest : Option ℕ
  pub rate_limit_default : Option ℕ
  pub trust_proxy_hops : Option ℕ
  pub api_auth_enabled : Option Bool
  pub api_keys : Option Text
  pub log_level : Option LogLevel
  pub log_pretty : Option Bool
  pub metrics_enabled : Option Bool
  pub metrics_token : Option Text
  pub otel_exporter_otlp_endpoint : Option Text
  pub otel_exporter_otlp_headers : Option Text
  pub otel_service_name : Option Text
  pub otel_traces_sampler_ratio : Option Number
  pub otel_metrics_export_enabled : Option Bool
  pub otel_metric_export_interval_ms : Option ℕ
  pub loki_url : Option Text
  pub loki_username : Option Text
  pub loki_password : Option Text

pub record Env : Type 0 where
  pub node_env : NodeEnv
  pub port : ℕ
  pub cors_origins : Option Text
  pub elasticsearch_node : Text
  pub elasticsearch_api_key : Option Text
  pub elasticsearch_username : Option Text
  pub elasticsearch_password : Option Text
  pub elasticsearch_index : Text
  pub elasticsearch_tls_reject_unauthorized : Bool
  pub elasticsearch_request_timeout_ms : ℕ
  pub elasticsearch_max_retries : ℕ
  pub redis_url : Text
  pub cache_ttl_search : ℕ
  pub cache_ttl_autocomplete : ℕ
  pub search_default_page_size : ℕ
  pub search_max_page_size : ℕ
  pub search_suggest_max_hits : ℕ
  pub search_max_result_window : ℕ
  pub relevance_popularity_factor : Number
  pub relevance_recency_scale : Text
  pub relevance_recency_decay : Number
  pub rate_limit_enabled : Bool
  pub rate_limit_window_seconds : ℕ
  pub rate_limit_search : ℕ
  pub rate_limit_autocomplete : ℕ
  pub rate_limit_suggest : ℕ
  pub rate_limit_default : ℕ
  pub trust_proxy_hops : ℕ
  pub api_auth_enabled : Bool
  pub api_keys : Option Text
  pub log_level : LogLevel
  pub log_pretty : Bool
  pub metrics_enabled : Bool
  pub metrics_token : Option Text
  pub otel_exporter_otlp_endpoint : Option Text
  pub otel_exporter_otlp_headers : Option Text
  pub otel_service_name : Text
  pub otel_traces_sampler_ratio : Number
  pub otel_metrics_export_enabled : Bool
  pub otel_metric_export_interval_ms : ℕ
  pub loki_url : Option Text
  pub loki_username : Option Text
  pub loki_password : Option Text

abbrev trimmed : Option Text → Option Text
trimmed none = none
trimmed (some t) = some (trim t)

-- The defaults, and `trim()` of the token. The two variables that must be set are
-- checked in `validate_env`.
unfoldable pub with_defaults : Supplied → Env
unfolding trim
with_defaults s = record {
  node_env = s.node_env or development;
  port = s.port or 3000;
  cors_origins = s.cors_origins;
  elasticsearch_node = s.elasticsearch_node or [];
  elasticsearch_api_key = s.elasticsearch_api_key;
  elasticsearch_username = s.elasticsearch_username;
  elasticsearch_password = s.elasticsearch_password;
  elasticsearch_index = s.elasticsearch_index or (str "products");
  elasticsearch_tls_reject_unauthorized = s.elasticsearch_tls_reject_unauthorized or true;
  elasticsearch_request_timeout_ms = s.elasticsearch_request_timeout_ms or 4000;
  elasticsearch_max_retries = s.elasticsearch_max_retries or 2;
  redis_url = s.redis_url or [];
  cache_ttl_search = s.cache_ttl_search or 300;
  cache_ttl_autocomplete = s.cache_ttl_autocomplete or 60;
  search_default_page_size = s.search_default_page_size or 20;
  search_max_page_size = s.search_max_page_size or 100;
  search_suggest_max_hits = s.search_suggest_max_hits or 5;
  search_max_result_window = s.search_max_result_window or 10000;
  relevance_popularity_factor = s.relevance_popularity_factor or (fraction 1 0);
  relevance_recency_scale = s.relevance_recency_scale or (str "90d");
  relevance_recency_decay = s.relevance_recency_decay or (fraction 1 1);
  rate_limit_enabled = s.rate_limit_enabled or true;
  rate_limit_window_seconds = s.rate_limit_window_seconds or 60;
  rate_limit_search = s.rate_limit_search or 60;
  rate_limit_autocomplete = s.rate_limit_autocomplete or 300;
  rate_limit_suggest = s.rate_limit_suggest or 60;
  rate_limit_default = s.rate_limit_default or 120;
  trust_proxy_hops = s.trust_proxy_hops or 0;
  api_auth_enabled = s.api_auth_enabled or true;
  api_keys = s.api_keys;
  log_level = s.log_level or level_info;
  log_pretty = s.log_pretty or false;
  metrics_enabled = s.metrics_enabled or true;
  metrics_token = trimmed s.metrics_token;
  otel_exporter_otlp_endpoint = s.otel_exporter_otlp_endpoint;
  otel_exporter_otlp_headers = s.otel_exporter_otlp_headers;
  otel_service_name = s.otel_service_name or (str "advanced-search-api");
  otel_traces_sampler_ratio = s.otel_traces_sampler_ratio or (fraction 1 9);
  otel_metrics_export_enabled = s.otel_metrics_export_enabled or false;
  otel_metric_export_interval_ms = s.otel_metric_export_interval_ms or 60000;
  loki_url = s.loki_url;
  loki_username = s.loki_username;
  loki_password = s.loki_password;
}
