-- ===== src/Observability/Metrics.antt =====
-- The metrics port and its adapters: prometheus-metrics.adapter.ts, otlp-metrics.adapter.ts,
-- composite-metrics.adapter.ts, noop-metrics.adapter.ts, and the choice in observability.module.ts.
-- An instrument of prom-client or OpenTelemetry is the list of the samples that it is given.
pub mod Recorded
use advanced_search_api.Base.{
  ℕ, suc, ◌+◌, ◌-◌, ◌*◌, Text, str, Option, none, some, Bool, true, false, not, ◌||◌, List, [], ◌∷◌,
  ◌++◌, if◌then◌else◌, ◌==◌,
}
use advanced_search_api.Base.Dict.{Dict}
use advanced_search_api.Base.Decimal.{to_decimal}
use advanced_search_api.Shared.{Result, ok, thrown}
use advanced_search_api.Domain.{Number, not_finite, negative, fraction}
use advanced_search_api.Config.{ObservabilityConfig}

-- A call of the metrics port; a duration is in milliseconds.
pub data MetricsCall : Type 0 where
  observe_request : Text → Text → ℕ → Number → MetricsCall
  record_cache_hit record_cache_miss record_rate_limit_failover : MetricsCall

-- What an instrument is given: the name of the metric, the amount of a counter or the value of a
-- histogram, and the labels. `process_metrics` stands for all that prom-client's
-- `collectDefaultMetrics` registers, the figures of the process, which the library keeps itself.
pub data Sample : Type 0 where
  counted : Text → ℕ → Dict Text → Sample
  timed : Text → Dict Text → Number → Sample
  process_metrics : Sample

-- `durationMs / 1000`.
unfoldable pub per_thousand : Number → Number
per_thousand not_finite = not_finite
per_thousand negative = negative
per_thousand (fraction n d) = fraction n (suc d * 1000 - 1)

abbrev pub request_labels : Text → Text → ℕ → Dict Text
request_labels method route status =
    (str "method", method) ∷ (str "route", route) ∷ (str "status", to_decimal status) ∷ []

-- `Counter.inc` and `Histogram.observe` of prom-client; `Counter.add` and `Histogram.record` of
-- OpenTelemetry, where `add` has the amount.
abbrev inc : Text → Dict Text → List Sample → List Sample
inc name labels samples = samples ++ counted name 1 labels ∷ []

abbrev observe : Text → Dict Text → Number → List Sample → List Sample
observe name labels value samples = samples ++ timed name labels value ∷ []

abbrev add : Text → ℕ → Dict Text → List Sample → List Sample
add name amount attributes samples = samples ++ counted name amount attributes ∷ []

-- A registry of its own, with the default metrics; the instruments hold nothing yet.
unfoldable pub new_prometheus : List Sample
new_prometheus = process_metrics ∷ []

unfoldable pub prometheus_call : MetricsCall → List Sample → List Sample
unfolding to_decimal per_thousand
prometheus_call (observe_request method route status duration) samples =
    observe (str "http_request_duration_seconds") (request_labels method route status)
      (per_thousand duration)
      (inc (str "http_requests_total") (request_labels method route status) samples)
prometheus_call record_cache_hit samples =
    inc (str "search_cache_events_total") ((str "result", str "hit") ∷ []) samples
prometheus_call record_cache_miss samples =
    inc (str "search_cache_events_total") ((str "result", str "miss") ∷ []) samples
prometheus_call record_rate_limit_failover samples =
    inc (str "rate_limit_failover_total") [] samples

-- `/\/$/`: one slash at the end goes.
unfoldable pub without_end_slash : Text → Text
without_end_slash [] = []
without_end_slash (c ∷ []) = if c == b'/' then [] else c ∷ []
without_end_slash (c ∷ d ∷ s) = c ∷ without_end_slash (d ∷ s)

pub record OtlpAdapter : Type 0 where
  pub service_name : Text
  pub url : Text
  pub headers : Dict Text
  pub export_interval_ms : ℕ
  pub samples : List Sample
  pub shut_down : Bool

unfoldable pub new_otlp : ObservabilityConfig → Text → OtlpAdapter
unfolding without_end_slash
new_otlp config endpoint = record {
  service_name = config.service_name;
  url = without_end_slash endpoint ++ str "/v1/metrics";
  headers = config.otlp_headers;
  export_interval_ms = config.metric_export_interval_ms;
  samples = [];
  shut_down = false;
}

unfoldable pub otlp_samples : MetricsCall → List Sample → List Sample
unfolding to_decimal per_thousand
otlp_samples (observe_request method route status duration) samples =
    observe (str "http_request_duration_seconds") (request_labels method route status)
      (per_thousand duration)
      (add (str "http_requests_total") 1 (request_labels method route status) samples)
otlp_samples record_cache_hit samples =
    add (str "search_cache_events_total") 1 ((str "result", str "hit") ∷ []) samples
otlp_samples record_cache_miss samples =
    add (str "search_cache_events_total") 1 ((str "result", str "miss") ∷ []) samples
otlp_samples record_rate_limit_failover samples = add (str "rate_limit_failover_total") 1 [] samples

unfoldable pub otlp_call : MetricsCall → OtlpAdapter → OtlpAdapter
unfolding otlp_samples
otlp_call c a = record a { samples = otlp_samples c a.samples }

-- `shutdown` of the provider is called once; whether it fails makes no difference.
unfoldable pub otlp_shutdown : Result (Unit {0}) → OtlpAdapter → OtlpAdapter
otlp_shutdown (ok _) a = record a { shut_down = true }
otlp_shutdown (thrown _) a = record a { shut_down = true }

-- `MetricsAdapter`.
pub data Adapter : Type 0 where
  noop : Adapter
  prometheus : List Sample → Adapter
  composite : List Sample → OtlpAdapter → Adapter

unfoldable pub metrics_call : MetricsCall → Adapter → Adapter
unfolding prometheus_call otlp_call
metrics_call c noop = noop
metrics_call c (prometheus local) = prometheus (prometheus_call c local)
metrics_call c (composite local remote) = composite (prometheus_call c local) (otlp_call c remote)

-- `exposition` is the registry's `metrics`.
unfoldable pub render_metrics : (List Sample → Text) → Adapter → Text
render_metrics exposition noop = []
render_metrics exposition (prometheus local) = exposition local
render_metrics exposition (composite local remote) = exposition local

unfoldable pub content_type : Text → Adapter → Text
content_type registry_type noop = str "text/plain; charset=utf-8"
content_type registry_type (prometheus local) = registry_type
content_type registry_type (composite local remote) = registry_type

unfoldable pub on_application_shutdown : Result (Unit {0}) → Adapter → Adapter
unfolding otlp_shutdown
on_application_shutdown r noop = noop
on_application_shutdown r (prometheus local) = prometheus local
on_application_shutdown r (composite local remote) = composite local (otlp_shutdown r remote)

abbrev pub exporting : Bool → ObservabilityConfig → Option Text → Adapter
exporting false config endpoint = prometheus new_prometheus
exporting true config none = prometheus new_prometheus
exporting true config (some endpoint) = composite new_prometheus (new_otlp config endpoint)

unfoldable pub build_metrics_adapter : ObservabilityConfig → Adapter
unfolding new_otlp new_prometheus
build_metrics_adapter config =
    if not config.metrics_enabled
    then noop
    else exporting config.metrics_export_enabled config config.otlp_endpoint
