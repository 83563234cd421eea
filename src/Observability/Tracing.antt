-- ===== src/Observability/Tracing.antt =====
-- src/infrastructure/observability/tracing.bootstrap.ts and telemetry-status.ts: what is traced, the life
-- of the tracing SDK, and the line that reports the telemetry at start-up.
pub mod Life
pub mod Status
use advanced_search_api.Base.{
  ℕ, suc, Text, str, Option, none, some, Bool, true, false, List, [], ◌∷◌, ◌++◌, if◌then◌else◌,
  ◌==◌, any, is_some,
}
use advanced_search_api.Base.Dict.{Dict, put}
use advanced_search_api.Base.Decimal.{to_decimal}
use advanced_search_api.Domain.{Number}
use advanced_search_api.Config.{ObservabilityConfig}
use advanced_search_api.Observability.Metrics.{without_end_slash}

-- The samplers that the code puts together.
pub data Sampler : Type 0 where
  trace_id_ratio_based : Number → Sampler
  ignored_paths parent_based : Sampler → Sampler

pub data Instrumentation : Type 0 where
  -- With `redactIncomingQuery` as its request hook.
  http_redacting_query : Instrumentation
  -- With `commandNameOnly` as its statement serializer.
  ioredis_command_name_only : Instrumentation

pub record TracingConfig : Type 0 where
  pub service_name : Text
  pub exporter_url : Text
  pub exporter_headers : Dict Text
  pub sampler : Sampler
  pub instrumentations : List Instrumentation
  -- An empty list of readers, which keeps the SDK from exporting metrics.
  pub metric_readers : List Text

abbrev pub config_for : ObservabilityConfig → Option Text → Option TracingConfig
config_for observability none = none
config_for observability (some endpoint) = some (record {
  service_name = observability.service_name;
  exporter_url = without_end_slash endpoint ++ str "/v1/traces";
  exporter_headers = observability.otlp_headers;
  sampler = parent_based (ignored_paths (trace_id_ratio_based observability.traces_sampler_ratio));
  instrumentations = http_redacting_query ∷ ioredis_command_name_only ∷ [];
  metric_readers = [];
})

unfoldable pub build_tracing_config : ObservabilityConfig → Option TracingConfig
unfolding without_end_slash
build_tracing_config observability = config_for observability observability.otlp_endpoint

-- The calls of an SDK, by its number.
pub data SdkCall : Type 0 where
  sdk_start sdk_shutdown : ℕ → SdkCall

-- The variable `sdk`, whether a handler waits for SIGTERM, how many SDKs were made, and their calls.
pub record Tracing : Type 0 where
  pub sdk : Option ℕ
  pub on_sigterm : Bool
  pub made : ℕ
  pub calls : List SdkCall

abbrev pub started : Tracing → Option TracingConfig → Bool × Tracing
started s none = (false, s)
started s (some config) = (
  true,
  record {
    sdk = some s.made;
    on_sigterm = true;
    made = suc s.made;
    calls = s.calls ++ sdk_start s.made ∷ [];
  },
)

unfoldable pub start_tracing : ObservabilityConfig → Tracing → Bool × Tracing
unfolding build_tracing_config
start_tracing observability s = started s (build_tracing_config observability)

abbrev stopped : Tracing → Option ℕ → Tracing
stopped s none = s
stopped s (some running) = record s { sdk = none; calls = s.calls ++ sdk_shutdown running ∷ [] }

unfoldable pub stop_tracing : Tracing → Tracing
stop_tracing s = stopped s s.sdk

-- The signal's handler runs once.
unfoldable pub sigterm : Tracing → Tracing
unfolding stop_tracing
sigterm s = if s.on_sigterm then stop_tracing (record s { on_sigterm = false }) else s

unfoldable pub command_name_only : Text → Text
command_name_only command_name = command_name

abbrev has_query : Option Text → Bool
has_query none = false
has_query (some url) = any (λ c. c == b'?') url

-- The attributes of the span; `url` is the request's, if it is a text.
unfoldable pub redact_incoming_query : Option Text → Dict Text → Dict Text
unfolding any put
redact_incoming_query url attributes =
    if has_query url then put (str "url.query") (str "[REDACTED]") attributes else attributes

abbrev pub traces_part : Bool → Text
traces_part tracing_started =
    if tracing_started then str "exporting over OTLP" else str "off (no OTLP endpoint)"

unfoldable pub metrics_part : ObservabilityConfig → Text
unfolding to_decimal
metrics_part observability =
    if observability.metrics_export_enabled
    then str "exporting over OTLP every "
      ++ (to_decimal observability.metric_export_interval_ms ++ str "ms")
    else str "local only (/metrics)"

abbrev pub logs_part : Option Text → Text
logs_part none = str "stdout only"
logs_part (some url) = str "stdout + Loki"

unfoldable pub telemetry_status_line : ObservabilityConfig → Bool → Text
unfolding metrics_part
telemetry_status_line observability tracing_started =
    str "Telemetry — traces: "
    ++ (traces_part tracing_started
        ++ (str "; metrics: "
            ++ (metrics_part observability
                ++ (str "; logs: " ++ logs_part observability.loki_url))))
