-- ===== src/Examples/Service.antt =====
-- Runs of the health check and the configuration.
use advanced_search_api.Base.{
  ◌≤◌, Text, str, Option, none, some, Bool, true, false, ◌≡◌, ◌≢◌, refl, List, [], ◌∷◌, All,
  is_some, length,
}
use advanced_search_api.Shared.{info, warn, error_object, ok, thrown}
use advanced_search_api.Health.{
  Probe, DependencyHealth, HealthState, up, down, probes_of, report_transitions, is_member, is_down,
  recovered,
}
use advanced_search_api.Health.Transitions.{changes, report_transitions-changes}
use advanced_search_api.Config.Environment.{Supplied, production, with_defaults}
use advanced_search_api.Config.Environment.Checks.{validate_env}
use advanced_search_api.Config.{build_config, parse_otlp_headers}
use advanced_search_api.Config.Strict.{build_config_strict}

abbrev quiet : HealthState
quiet = record { down_dependencies = []; log = [] }

-- Redis is away.
abbrev half_up : List Probe
half_up = probes_of (ok true) (thrown (error_object (str "ECONNREFUSED")))

abbrev away : DependencyHealth
away = record { name = str "redis"; status = down; critical = false; detail = none }

abbrev back : DependencyHealth
back = record { name = str "redis"; status = up; critical = false; detail = none }

report_transitions-changes_example :
    (report_transitions (away ∷ away ∷ back ∷ back ∷ []) quiet).log
    ≡ warn (is_down away) ∷ info (recovered back) ∷ []
unfolding changes is_member
report_transitions-changes_example =
    report_transitions-changes (away ∷ away ∷ back ∷ back ∷ []) quiet

abbrev pub nothing_set : Supplied
nothing_set = record {
  node_env = some production;
  port = none;
  cors_origins = none;
  elasticsearch_node = some (str "http://es:9200");
  elasticsearch_api_key = none;
  elasticsearch_username = none;
  elasticsearch_password = none;
  elasticsearch_index = none;
  elasticsearch_tls_reject_unauthorized = none;
  elasticsearch_request_timeout_ms = none;
  elasticsearch_max_retries = none;
  redis_url = some (str "redis://r");
  cache_ttl_search = none;
  cache_ttl_autocomplete = none;
  search_default_page_size = none;
  search_max_page_size = none;
  search_suggest_max_hits = none;
  search_max_result_window = none;
  relevance_popularity_factor = none;
  relevance_recency_scale = none;
  relevance_recency_decay = none;
  rate_limit_enabled = none;
  rate_limit_window_seconds = none;
  rate_limit_search = none;
  rate_limit_autocomplete = none;
  rate_limit_suggest = none;
  rate_limit_default = none;
  trust_proxy_hops = none;
  api_auth_enabled = none;
  api_keys = some (str "a-long-enough-secret-key, ,another-configured-key-1");
  log_level = none;
  log_pretty = none;
  metrics_enabled = none;
  metrics_token = some (str " token ");
  otel_exporter_otlp_endpoint = none;
  otel_exporter_otlp_headers = none;
  otel_service_name = none;
  otel_traces_sampler_ratio = none;
  otel_metrics_export_enabled = none;
  otel_metric_export_interval_ms = none;
  loki_url = none;
  loki_username = none;
  loki_password = none;
}

abbrev pub any_url : Text → Bool
any_url [] = false
any_url (_ ∷ _) = true

abbrev pub as_it_is : Text → Option Text
as_it_is t = some t

build_config_strict_example :
    (20 ≤ 100)
    × (1 ≤ 20)
    × (1 ≤ 60)
    × ((build_config as_it_is (with_defaults nothing_set)).api_auth.enabled ≡ true
        → ((build_config as_it_is (with_defaults nothing_set)).api_auth.keys ≢ [])
          × All
              (λ k. 16 ≤ length k)
              (build_config as_it_is (with_defaults nothing_set)).api_auth.keys)
    × ((build_config as_it_is (with_defaults nothing_set)).app.node_env ≡ production
        → (build_config as_it_is (with_defaults nothing_set)).observability.metrics_enabled ≡ true
        → is_some (build_config as_it_is (with_defaults nothing_set)).observability.metrics_token
          ≡ true)
unfolding validate_env build_config with_defaults
build_config_strict_example =
    build_config_strict any_url as_it_is nothing_set (with_defaults nothing_set) refl

-- The first "=" of a pair separates, so the padding of a credential stays.
padded :
    parse_otlp_headers as_it_is (some (str "Authorization = Basic YWI=,broken,=x"))
    ≡ (str "Authorization", str "Basic YWI=") ∷ []
unfolding parse_otlp_headers
padded = refl
