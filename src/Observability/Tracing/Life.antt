-- ===== src/Observability/Tracing/Life.antt =====
-- One SDK at most, shut down once.
use advanced_search_api.Base.{
  Text, Option, none, some, false, ◌≡◌, refl, ◌∙◌, List, [], ◌∷◌, is_some, arith, if◌then◌else◌,
}
use advanced_search_api.Config.{ObservabilityConfig}
use advanced_search_api.Observability.Tracing.{
  Tracing, sdk_start, sdk_shutdown, start_tracing, stop_tracing, sigterm, build_tracing_config,
  started, config_for,
}

abbrev pub before_start : Tracing
before_start = record { sdk = none; on_sigterm = false; made = 0; calls = [] }

-- What ends tracing: the signal, or a call of `stopTracing`.
pub data Ending : Type 0 where
  signal explicit : Ending

unfoldable pub end_all : List Ending → Tracing → Tracing
unfolding stop_tracing sigterm
end_all [] s = s
end_all (signal ∷ es) s = end_all es (sigterm s)
end_all (explicit ∷ es) s = end_all es (stop_tracing s)

idle : (es : List Ending) (s : Tracing) → s.sdk ≡ none → (end_all es s).calls ≡ s.calls
unfolding end_all
idle [] s h = refl
idle (signal ∷ es) s h = idle es (sigterm s) (ground arith) ∙ ground arith
idle (explicit ∷ es) s h = idle es (stop_tracing s) (ground arith) ∙ ground arith

by_endpoint :
    (config : ObservabilityConfig) (endpoint : Option Text) (e : Ending) (es : List Ending)
    → let (tracing, s) = started before_start (config_for config endpoint) in
      (tracing ≡ is_some endpoint)
      × ((end_all (e ∷ es) s).calls
          ≡ (if is_some endpoint then sdk_start 0 ∷ sdk_shutdown 0 ∷ [] else []))
unfolding end_all
by_endpoint config none signal es = (refl, idle es before_start refl)
by_endpoint config none explicit es = (refl, idle es before_start refl)
by_endpoint config (some u) signal es = (refl, idle es _ refl)
by_endpoint config (some u) explicit es = (refl, idle es _ refl)

-- Tracing starts exactly if there is an endpoint. Once started, the first SIGTERM or call of `stopTracing`
-- shuts the SDK down, and whatever follows, in any order, does nothing more; without an endpoint the SDK is
-- never touched.
pub start_tracing-ends :
    (config : ObservabilityConfig) (e : Ending) (es : List Ending)
    → let (tracing, s) = start_tracing config before_start in
      (tracing ≡ is_some config.otlp_endpoint)
      × ((end_all (e ∷ es) s).calls
          ≡ (if is_some config.otlp_endpoint then sdk_start 0 ∷ sdk_shutdown 0 ∷ [] else []))
unfolding start_tracing build_tracing_config
start_tracing-ends config e es = by_endpoint config config.otlp_endpoint e es
