-- ===== src/Observability/Logger.antt =====
-- src/infrastructure/observability/pino-logger.adapter.ts: the options of pino, and the fields of a line.
pub mod Wire
pub mod Traced
use advanced_search_api.Base.{
  ℕ, Text, str, Option, none, some, Bool, true, false, not, ◌&&◌, List, [], ◌∷◌, ◌++◌,
  if◌then◌else◌, is_some,
}
use advanced_search_api.Base.Dict.{Dict}
use advanced_search_api.Config.{AppConfiguration, ObservabilityConfig}
use advanced_search_api.Config.Environment.{
  NodeEnv, development, test, production, LogLevel, level_fatal, level_error, level_warn,
  level_info, level_debug, level_trace,
}
use advanced_search_api.Config.Environment.Checks.{is_production}
use advanced_search_api.Observability.Correlation.{Stored, get_correlation_id}

abbrev pub env_text : NodeEnv → Text
env_text development = str "development"
env_text test = str "test"
env_text production = str "production"

-- A target of pino: pretty print, standard output, or Loki.
pub data Target : Type 0 where
  pino_pretty pino_file : Target
  -- The host, the labels and the credentials.
  pino_loki : Text → Dict Text → Option (Text × Text) → Target

-- `timestamp` and `formatters` are set together: ISO times and the level's label.
pub record LoggerOptions : Type 0 where
  pub level : LogLevel
  pub service : Text
  pub readable : Bool
  pub transport : Option Target

-- Where pino writes: by its options, to a given stream, or to workers with targets of their own.
pub data Destination : Type 0 where
  by_options given_stream : Destination
  workers : List Target → Destination

abbrev basic_auth : Option Text → Option Text → Option (Text × Text)
basic_auth (some username) (some password) = some (username, password)
basic_auth _ _ = none

unfoldable pub shipping_targets : AppConfiguration → Text → Bool → List Target
shipping_targets config loki_url pretty =
    (if pretty then pino_pretty else pino_file)
    ∷ pino_loki loki_url
        ((str "service", config.observability.service_name)
          ∷ (str "env", env_text config.app.node_env)
          ∷ [])
        (basic_auth config.observability.loki_username config.observability.loki_password)
    ∷ []

abbrev pub wants_pretty : AppConfiguration → Bool
wants_pretty config = config.observability.log_pretty && not (is_production config.app.node_env)

abbrev options_of : AppConfiguration → Bool → Bool → LoggerOptions
options_of config shipping to_transport = record {
  level = config.observability.log_level;
  service = config.observability.service_name;
  readable = not shipping;
  transport = if to_transport then some pino_pretty else none;
}

abbrev logger_for : AppConfiguration → Bool → Option Text → LoggerOptions × Destination
logger_for config true loki_url = (options_of config false false, given_stream)
logger_for config false none = (options_of config false (wants_pretty config), by_options)
logger_for config false (some url) =
    (options_of config true false, workers (shipping_targets config url (wants_pretty config)))

-- The constructor; the Boolean says whether a destination is given.
unfoldable pub new_pino_logger : AppConfiguration → Bool → LoggerOptions × Destination
unfolding shipping_targets
new_pino_logger config has_destination =
    logger_for config has_destination config.observability.loki_url

-- What Nest passes after the message: texts, or anything else.
pub data Param : Type 0 where
  text_param : Text → Param
  other_param : Param

-- A message: a text, an error, or a value with its JSON.
pub data Message : Type 0 where
  text_message error_message other_message : Text → Message

unfoldable pub to_message : Message → Text
to_message (text_message t) = t
to_message (error_message t) = t
to_message (other_message json) = json

-- `rest.pop()` if the last of the parameters is a text: the context, and the parameters before it.
abbrev with_before : Param → Option Text × List Param → Option Text × List Param
with_before p (context, rest) = (context, p ∷ rest)

unfoldable pub pop_context : List Param → Option Text × List Param
pop_context [] = (none, [])
pop_context (text_param t ∷ []) = (some t, [])
pop_context (other_param ∷ []) = (none, other_param ∷ [])
pop_context (p ∷ q ∷ ps) = with_before p (pop_context (q ∷ ps))

-- `rest.find`.
unfoldable pub find_text : List Param → Option Text
find_text [] = none
find_text (text_param t ∷ ps) = some t
find_text (other_param ∷ ps) = find_text ps

pub record Line : Type 0 where
  pub level : LogLevel
  pub context : Option Text
  pub stack : Option Text
  pub correlation_id : Option Text
  pub message : Text

unfoldable pub write : LogLevel → Message → List Param → Stored Line
unfolding pop_context find_text get_correlation_id to_message
write level message params stored =
    let (context, rest) = pop_context params in
    record {
      level = level;
      context = context;
      stack = find_text rest;
      correlation_id = get_correlation_id stored;
      message = to_message message;
    }

-- The methods of the logger.
unfoldable pub log : Message → List Param → Stored Line
unfolding write
log message params = write level_info message params

unfoldable pub error : Message → List Param → Stored Line
unfolding write
error message params = write level_error message params

unfoldable pub warn : Message → List Param → Stored Line
unfolding write
warn message params = write level_warn message params

unfoldable pub debug : Message → List Param → Stored Line
unfolding write
debug message params = write level_debug message params

unfoldable pub verbose : Message → List Param → Stored Line
unfolding write
verbose message params = write level_trace message params

unfoldable pub fatal : Message → List Param → Stored Line
unfolding write
fatal message params = write level_fatal message params
