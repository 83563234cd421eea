-- ===== src/Observability/Logger/Wire.antt =====
-- Where log lines go, and in which format.
use advanced_search_api.Base.{
  Text, str, Option, none, some, Bool, true, false, ◌≡◌, refl, List, [], ◌∷◌, All, arith,
}
use advanced_search_api.Config.{AppConfiguration}
use advanced_search_api.Config.Environment.{production}
use advanced_search_api.Config.Environment.Checks.{is_production}
use advanced_search_api.Observability.Logger.{
  Target, pino_pretty, pino_file, pino_loki, LoggerOptions, Destination, by_options, given_stream,
  workers, shipping_targets, env_text, wants_pretty, logger_for, new_pino_logger,
}

-- The targets that a logger writes to.
abbrev pub targets_of : LoggerOptions × Destination → List Target
targets_of (options, by_options) = elim options.transport [ none ↦ [] | some t ↦ t ∷ [] ]
targets_of (options, given_stream) = elim options.transport [ none ↦ [] | some t ↦ t ∷ [] ]
targets_of (options, workers targets) = targets

-- No target is the pretty printer.
abbrev pub IsPlain : Target → Type 0
IsPlain pino_pretty = ⊥
IsPlain pino_file = Unit
IsPlain (pino_loki host labels auth) = Unit

-- Labels name the service and the environment alone.
abbrev pub HasFixedLabels : AppConfiguration → Target → Type 0
HasFixedLabels config pino_pretty = Unit
HasFixedLabels config pino_file = Unit
HasFixedLabels config (pino_loki host labels auth) =
    labels
    ≡ (str "service", config.observability.service_name)
      ∷ (str "env", env_text config.app.node_env)
      ∷ []

-- The lines that cross to workers keep their numeric format.
abbrev pub StaysNumeric : LoggerOptions × Destination → Type 0
StaysNumeric (options, by_options) = Unit
StaysNumeric (options, given_stream) = Unit
StaysNumeric (options, workers targets) = (options.readable ≡ false) × (options.transport ≡ none)

module _ (config : AppConfiguration) where
  plain :
      (has_destination : Bool) (url : Option Text)
      → wants_pretty config ≡ false
      → All IsPlain (targets_of (logger_for config has_destination url))
  unfolding shipping_targets
  plain true url h = tt
  plain false none h = rw h tt
  plain false (some u) h = rw h (tt, (tt, tt))

  labelled :
      (has_destination : Bool) (url : Option Text) (pretty : Bool)
      → wants_pretty config ≡ pretty
      → All (HasFixedLabels config) (targets_of (logger_for config has_destination url))
  unfolding shipping_targets
  labelled true url pretty h = tt
  labelled false none true h = rw h (tt, tt)
  labelled false none false h = rw h tt
  labelled false (some u) true h = rw h (tt, (refl, tt))
  labelled false (some u) false h = rw h (tt, (refl, tt))

  numeric :
      (has_destination : Bool) (url : Option Text)
      → StaysNumeric (logger_for config has_destination url)
  numeric true url = tt
  numeric false none = tt
  numeric false (some u) = (refl, refl)

  -- The logger never prints in production through the pretty printer, which the runtime image lacks,
  -- whatever LOG_PRETTY says; lines that are shipped to workers stay in pino's numeric format; and the
  -- labels of a Loki stream are the service and the environment alone.
  pub new_pino_logger-IsSafe :
      (has_destination : Bool)
      → (config.app.node_env ≡ production
          → All IsPlain (targets_of (new_pino_logger config has_destination)))
        × StaysNumeric (new_pino_logger config has_destination)
        × All (HasFixedLabels config) (targets_of (new_pino_logger config has_destination))
  unfolding new_pino_logger
  new_pino_logger-IsSafe has_destination = (
    (λ in_production.
        plain has_destination config.observability.loki_url
          (rw (in_production, is_production) (ground arith))),
    numeric has_destination config.observability.loki_url,
    labelled has_destination config.observability.loki_url _ refl,
  )
