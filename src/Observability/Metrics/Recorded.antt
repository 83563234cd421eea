-- ===== src/Observability/Metrics/Recorded.antt =====
-- What the configured adapter records: each call once, in the local registry and, if metrics are
-- exported, in the exported ones.
use advanced_search_api.Base.{
  Text, str, Option, none, some, Bool, true, false, not, ◌&&◌, ◌≡◌, refl, sym, append-nil, ap, ◌∙◌,
  List, [], ◌∷◌, ◌++◌, append_assoc, if◌then◌else◌, is_some,
}
use advanced_search_api.Config.{ObservabilityConfig}
use advanced_search_api.Observability.Metrics.{
  MetricsCall, observe_request, record_cache_hit, record_cache_miss, record_rate_limit_failover,
  Sample, counted, timed, per_thousand, request_labels, prometheus_call, otlp_samples, otlp_call,
  OtlpAdapter, new_otlp, new_prometheus, process_metrics, exporting, Adapter, noop, prometheus,
  composite, metrics_call, build_metrics_adapter,
}

-- The samples of one call, by the meaning of the port.
abbrev pub samples_of : MetricsCall → List Sample
samples_of (observe_request method route status duration) =
    counted (str "http_requests_total") 1 (request_labels method route status)
    ∷ timed (str "http_request_duration_seconds") (request_labels method route status)
        (per_thousand duration)
    ∷ []
samples_of record_cache_hit =
    counted (str "search_cache_events_total") 1 ((str "result", str "hit") ∷ []) ∷ []
samples_of record_cache_miss =
    counted (str "search_cache_events_total") 1 ((str "result", str "miss") ∷ []) ∷ []
samples_of record_rate_limit_failover = counted (str "rate_limit_failover_total") 1 [] ∷ []

abbrev pub all_samples : List MetricsCall → List Sample
all_samples [] = []
all_samples (c ∷ cs) = samples_of c ++ all_samples cs

unfoldable pub record_all : List MetricsCall → Adapter → Adapter
record_all [] a = a
record_all (c ∷ cs) a = record_all cs (metrics_call c a)

-- The samples of the registry that is scraped, and of the exporter.
abbrev pub local_samples : Adapter → List Sample
local_samples noop = []
local_samples (prometheus local) = local
local_samples (composite local remote) = local

abbrev pub exported_samples : Adapter → List Sample
exported_samples noop = []
exported_samples (prometheus local) = []
exported_samples (composite local remote) = remote.samples

prometheus_call-samples :
    (c : MetricsCall) (l : List Sample) → prometheus_call c l ≡ l ++ samples_of c
unfolding prometheus_call
prometheus_call-samples (observe_request m r s d) l = append_assoc l _ _
prometheus_call-samples record_cache_hit l = refl
prometheus_call-samples record_cache_miss l = refl
prometheus_call-samples record_rate_limit_failover l = refl

otlp_samples-samples : (c : MetricsCall) (l : List Sample) → otlp_samples c l ≡ l ++ samples_of c
unfolding otlp_samples
otlp_samples-samples (observe_request m r s d) l = append_assoc l _ _
otlp_samples-samples record_cache_hit l = refl
otlp_samples-samples record_cache_miss l = refl
otlp_samples-samples record_rate_limit_failover l = refl

pub noop-silent : (cs : List MetricsCall) → record_all cs noop ≡ noop
unfolding record_all metrics_call
noop-silent [] = refl
noop-silent (c ∷ cs) = noop-silent cs

prometheus-all :
    (cs : List MetricsCall) (l : List Sample)
    → record_all cs (prometheus l) ≡ prometheus (l ++ all_samples cs)
unfolding record_all metrics_call
prometheus-all [] l = ap prometheus (sym (append-nil l))
prometheus-all (c ∷ cs) l =
    prometheus-all cs (prometheus_call c l)
    ∙ ap prometheus (
        ap (λ x. x ++ all_samples cs) (prometheus_call-samples c l)
        ∙ append_assoc l (samples_of c) (all_samples cs))

composite-all :
    (cs : List MetricsCall) (l : List Sample) (remote : OtlpAdapter)
    → (local_samples (record_all cs (composite l remote)) ≡ l ++ all_samples cs)
      × (exported_samples (record_all cs (composite l remote)) ≡ remote.samples ++ all_samples cs)
unfolding record_all metrics_call otlp_call
composite-all [] l remote = (sym (append-nil l), sym (append-nil remote.samples))
composite-all (c ∷ cs) l remote =
    let (here, there) = composite-all cs (prometheus_call c l) (otlp_call c remote) in
    (
      here
          ∙ ap (λ x. x ++ all_samples cs) (prometheus_call-samples c l)
          ∙ append_assoc l (samples_of c) (all_samples cs),
      there
          ∙ ap (λ x. x ++ all_samples cs) (otlp_samples-samples c remote.samples)
          ∙ append_assoc remote.samples (samples_of c) (all_samples cs),
    )

by_settings :
    (config : ObservabilityConfig) (cs : List MetricsCall) (enabled exported : Bool)
    (endpoint : Option Text)
    → let a = if not enabled then noop else exporting exported config endpoint in
      (local_samples (record_all cs a) ≡ (if enabled then process_metrics ∷ all_samples cs else []))
      × (exported_samples (record_all cs a)
          ≡ (if enabled && exported && is_some endpoint then all_samples cs else []))
unfolding new_otlp new_prometheus
by_settings config cs false exported endpoint = rw (noop-silent cs) (refl, refl)
by_settings config cs true false endpoint = rw (prometheus-all cs new_prometheus) (refl, refl)
by_settings config cs true true none = rw (prometheus-all cs new_prometheus) (refl, refl)
by_settings config cs true true (some endpoint) =
    composite-all cs new_prometheus (new_otlp config endpoint)

-- Whatever is called on the metrics port, in any order: the registry that is scraped holds exactly the
-- library's process metrics and the samples of these calls if metrics are on, and nothing if they are
-- off; the exporter holds exactly the samples of these calls if metrics are on, their export is on
-- and there is an endpoint, and nothing otherwise.
pub record_all-samples :
    (config : ObservabilityConfig) (cs : List MetricsCall)
    → (local_samples (record_all cs (build_metrics_adapter config))
        ≡ (if config.metrics_enabled then process_metrics ∷ all_samples cs else []))
      × (exported_samples (record_all cs (build_metrics_adapter config)) ≡ (
          if config.metrics_enabled && config.metrics_export_enabled && is_some config.otlp_endpoint
          then all_samples cs
          else []))
unfolding build_metrics_adapter
record_all-samples config cs =
    by_settings config cs config.metrics_enabled config.metrics_export_enabled config.otlp_endpoint
