-- ===== src/Examples/Operations.antt =====
-- Runs of the metrics, the logs and the traces.
use advanced_search_api.Base.{
  Text, str, none, some, true, false, ◌≡◌, ◌≢◌, ◌↔◌, ◌⊎◌, refl, List, [], ◌∷◌, All, text_eq,
  text_eq_iff, every, ◌++◌,
}
use advanced_search_api.Base.Dict.{Dict, get}
use advanced_search_api.Auth.{single}
use advanced_search_api.Shared.Paths.{operator_paths, path_without_query}
use advanced_search_api.Shared.Paths.Matching.{IsBelowAny}
use advanced_search_api.Config.{AppConfiguration, ObservabilityConfig, build_config}
use advanced_search_api.Config.Environment.{production, with_defaults, level_info, level_error}
use advanced_search_api.Config.Environment.Checks.{validate_env}
use advanced_search_api.Observability.Metrics.{
  MetricsCall, record_cache_hit, record_cache_miss, Sample, process_metrics, build_metrics_adapter,
}
use advanced_search_api.Observability.Metrics.Recorded.{
  all_samples, record_all, local_samples, exported_samples, record_all-samples,
}
use advanced_search_api.Observability.Endpoint.Guarded.{
  scrape_after, metrics_stranger_learns_nothing,
}
use advanced_search_api.Observability.Correlation.{
  correlation_header, correlation_id_middleware, is_safe_id, candidate_of,
}
use advanced_search_api.Observability.Logger.{Line, text_message, text_param, new_pino_logger}
use advanced_search_api.Observability.Logger.Traced.{
  Written, lines_of, IsHarmless, correlation_id_middleware-traced,
}
use advanced_search_api.Observability.Logger.Wire.{
  targets_of, IsPlain, StaysNumeric, HasFixedLabels, new_pino_logger-IsSafe,
}
use advanced_search_api.Observability.Requests.{
  Answered, a_text, intercept, should_sample, server, not_record, record_and_sampled, SpanKind,
  Loose, Decision,
}
use advanced_search_api.Observability.Requests.Quiet.{
  in_url_path, span_of, operator_paths_are_quiet,
}
use advanced_search_api.Observability.Tracing.{metrics_part}
use advanced_search_api.Observability.Tracing.Status.{exports, says_exporting, metrics_part_truth}
use advanced_search_api.Examples.Service.{nothing_set, any_url, as_it_is}

abbrev live : AppConfiguration
live = build_config as_it_is (with_defaults nothing_set)

abbrev hit_and_miss : List MetricsCall
hit_and_miss = record_cache_miss ∷ record_cache_hit ∷ []

abbrev no_exposition : List Sample → Text
no_exposition [] = []
no_exposition (_ ∷ _) = str "search_cache_events_total 1"

wrong_token :
    (t : Text) → some (str "token") ≡ some t → some (str "Bearer guess") ≢ some (str "Bearer " ++ t)
unfolding text_eq
wrong_token t is e =
    let same : some (str "Bearer guess") ≡ some (str "Bearer token") = cc in
    let bearers : str "Bearer guess" ≡ str "Bearer token" = cc in
    let clash = (text_eq_iff (str "Bearer guess") (str "Bearer token")).1 bearers in absurd (cc)

metrics_stranger_learns_nothing_example :
    scrape_after no_exposition (str "text/plain") [] live (some (str "Bearer guess")) []
    ≡ scrape_after no_exposition (str "text/plain") [] live (some (str "Bearer guess")) hit_and_miss
unfolding validate_env with_defaults
metrics_stranger_learns_nothing_example =
    metrics_stranger_learns_nothing any_url as_it_is nothing_set (with_defaults nothing_set)
      no_exposition (str "text/plain") [] (some (str "Bearer guess")) [] hit_and_miss refl refl
      wrong_token

abbrev exporting_all : ObservabilityConfig
exporting_all = record live.observability {
  metrics_enabled = true;
  otlp_endpoint = some (str "https://otlp/");
  metrics_export_enabled = true;
}

record_all-samples_example :
    (local_samples (record_all hit_and_miss (build_metrics_adapter exporting_all))
      ≡ process_metrics ∷ all_samples hit_and_miss)
    × (exported_samples (record_all hit_and_miss (build_metrics_adapter exporting_all))
        ≡ all_samples hit_and_miss)
record_all-samples_example = record_all-samples exporting_all hit_and_miss

abbrev uuid : Text
uuid = str "123e4567-e89b-42d3-a456-426614174000"

abbrev two_lines : List Written
two_lines =
    (level_info, text_message (str "searching"), text_param (str "Search") ∷ [])
    ∷ (level_error, text_message (str "away"), [])
    ∷ []

-- A header with a line break is not taken over.
correlation_id_middleware-traced_example :
    (id : Text) × (get correlation_header
        (correlation_id_middleware uuid (single (str "a\nb")) [] (lines_of two_lines)).0
      ≡ some id)
    × IsHarmless id
    × All
        (λ (l : Line). l.correlation_id ≡ some id)
        (correlation_id_middleware uuid (single (str "a\nb")) [] (lines_of two_lines)).1
    × ((c : Text) → candidate_of (single (str "a\nb")) ≡ some c → is_safe_id c ≡ true → id ≡ c)
unfolding is_safe_id every
correlation_id_middleware-traced_example =
    correlation_id_middleware-traced uuid (single (str "a\nb")) [] two_lines refl

new_pino_logger-IsSafe_example :
    (live.app.node_env ≡ production → All IsPlain (targets_of (new_pino_logger live false)))
    × StaysNumeric (new_pino_logger live false)
    × All (HasFixedLabels live) (targets_of (new_pino_logger live false))
new_pino_logger-IsSafe_example = new_pino_logger-IsSafe live false

abbrev poll : Answered
poll = record {
  method = str "GET";
  url = str "/health/ready?verbose=1";
  route_path = a_text (str "/health/ready");
  status_code = 200;
}

abbrev sample_all : SpanKind → Dict Loose → Decision
sample_all kind attributes = record_and_sampled

operator_paths_are_quiet_example :
    ((intercept poll 3 ≡ []) ↔ IsBelowAny (path_without_query poll.url) operator_paths)
    × (IsBelowAny (path_without_query poll.url) operator_paths
        → should_sample sample_all server (span_of in_url_path poll.url) ≡ not_record)
    × (¬ (IsBelowAny (path_without_query poll.url) operator_paths)
        → should_sample sample_all server (span_of in_url_path poll.url) ≡ record_and_sampled)
operator_paths_are_quiet_example = operator_paths_are_quiet sample_all in_url_path poll 3

-- Metrics are off and their export is on.
abbrev off_but_exported : ObservabilityConfig
off_but_exported = record exporting_all { metrics_enabled = false }

metrics_part_truth_example :
    (exports (build_metrics_adapter off_but_exported) ≡ true
      → metrics_part off_but_exported ≡ says_exporting off_but_exported)
    × (((metrics_part off_but_exported ≡ says_exporting off_but_exported)
          × (exports (build_metrics_adapter off_but_exported) ≡ false))
        ↔ ((off_but_exported.metrics_export_enabled ≡ true)
            × ((off_but_exported.metrics_enabled ≡ false)
                ⊎ (off_but_exported.otlp_endpoint ≡ none))))
metrics_part_truth_example = metrics_part_truth off_but_exported
