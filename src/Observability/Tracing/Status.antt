-- ===== src/Observability/Tracing/Status.antt =====
-- When the status line tells the truth about the metrics.
use advanced_search_api.Base.{
  Text, str, Option, none, some, Bool, true, false, not, ◌≡◌, ◌≢◌, refl, ◌↔◌, ◌⊎◌, inl, inr, ◌++◌,
  arith, if◌then◌else◌,
}
use advanced_search_api.Base.Decimal.{to_decimal}
use advanced_search_api.Config.{ObservabilityConfig}
use advanced_search_api.Observability.Metrics.{
  Adapter, noop, prometheus, composite, build_metrics_adapter, exporting,
}
use advanced_search_api.Observability.Tracing.{metrics_part}

-- The adapter exports.
abbrev pub exports : Adapter → Bool
exports noop = false
exports (prometheus local) = false
exports (composite local remote) = true

abbrev pub says_exporting : ObservabilityConfig → Text
says_exporting c =
    str "exporting over OTLP every " ++ (to_decimal c.metric_export_interval_ms ++ str "ms")

by_settings :
    (c : ObservabilityConfig) (said quiet : Text) (enabled exported : Bool) (endpoint : Option Text)
    → quiet ≢ said
    → let a = if not enabled then noop else exporting exported c endpoint in
      (exports a ≡ true → (if exported then said else quiet) ≡ said)
      × ((((if exported then said else quiet) ≡ said) × (exports a ≡ false))
          ↔ ((exported ≡ true) × ((enabled ≡ false) ⊎ (endpoint ≡ none))))
by_settings c said quiet false false endpoint apart =
    ((λ e. absurd (cc)), ((λ (e, _). absurd (apart e)), (λ (e, _). absurd (cc))))
by_settings c said quiet false true endpoint apart =
    ((λ e. refl), ((λ _. (refl, inl refl)), (λ _. (refl, refl))))
by_settings c said quiet true false endpoint apart =
    ((λ e. absurd (cc)), ((λ (e, _). absurd (apart e)), (λ (e, _). absurd (cc))))
by_settings c said quiet true true none apart =
    ((λ e. refl), ((λ _. (refl, inr refl)), (λ _. (refl, refl))))
by_settings c said quiet true true (some u) apart = (
  (λ e. refl),
  ((λ (_, e). absurd (cc)), (λ (_, h). elim h [ inl e ↦ absurd (cc) | inr e ↦ absurd (cc) ])),
)

says_apart : (c : ObservabilityConfig) → str "local only (/metrics)" ≢ says_exporting c
says_apart c e = absurd (ground arith)

-- Whenever the adapter exports metrics, the status line says so. The line also says so while the adapter
-- exports nothing, exactly if the export is on but metrics are off or there is no endpoint.
pub metrics_part_truth :
    (c : ObservabilityConfig)
    → (exports (build_metrics_adapter c) ≡ true → metrics_part c ≡ says_exporting c)
      × (((metrics_part c ≡ says_exporting c) × (exports (build_metrics_adapter c) ≡ false)) ↔ (
          (c.metrics_export_enabled ≡ true)
          × ((c.metrics_enabled ≡ false) ⊎ (c.otlp_endpoint ≡ none))))
unfolding metrics_part build_metrics_adapter
metrics_part_truth c =
    by_settings c (says_exporting c) (str "local only (/metrics)") c.metrics_enabled
      c.metrics_export_enabled c.otlp_endpoint (says_apart c)
