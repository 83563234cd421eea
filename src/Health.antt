-- ===== src/Health.antt =====
-- src/application/use-cases/check-health.use-case.ts, the two probes of src/infrastructure, and
-- src/presentation/health: the health of the dependencies.
pub mod Verdict
pub mod Transitions
use advanced_search_api.Base.{
  ℕ, Text, str, Option, none, some, Bool, true, false, not, ◌||◌, List, [], ◌∷◌, ◌++◌, map,
  if◌then◌else◌, any, every, keep, text_eq,
}
use advanced_search_api.Base.Dict.{Dict, put}
use advanced_search_api.Shared.{Thrown, error_message, LogLine, info, warn, Result, ok, thrown}

pub data Status : Type 0 where
  up down : Status

pub record DependencyHealth : Type 0 where
  pub name : Text
  pub status : Status
  pub critical : Bool
  pub detail : Option Text

-- A probe with how its `ping` ends this time.
pub record Probe : Type 0 where
  pub name : Text
  pub critical : Bool
  pub ping : Result DependencyHealth

abbrev pub is_up : Status → Bool
is_up up = true
is_up down = false

-- The probe of Elasticsearch, by the outcome of `indices.exists`.
unfoldable pub elasticsearch_ping : Result Bool → DependencyHealth
unfolding error_message
elasticsearch_ping (ok true) = record {
  name = str "elasticsearch";
  status = up;
  critical = true;
  detail = none;
}
elasticsearch_ping (ok false) = record {
  name = str "elasticsearch";
  status = down;
  critical = true;
  detail = some (str "Configured search index is missing");
}
elasticsearch_ping (thrown e) = record {
  name = str "elasticsearch";
  status = down;
  critical = true;
  detail = some (error_message e);
}

-- The probe of Redis, by the outcome of `PING`.
unfoldable pub redis_ping : Result Text → DependencyHealth
unfolding error_message text_eq
redis_ping (ok pong) = record {
  name = str "redis";
  status = if text_eq pong (str "PONG") then up else down;
  critical = false;
  detail = none;
}
redis_ping (thrown e) = record {
  name = str "redis";
  status = down;
  critical = false;
  detail = some (error_message e);
}

unfoldable pub probes_of : Result Bool → Result Text → List Probe
unfolding elasticsearch_ping redis_ping
probes_of exists pong =
    record { name = str "elasticsearch"; critical = true; ping = ok (elasticsearch_ping exists) }
    ∷ record { name = str "redis"; critical = false; ping = ok (redis_ping pong) }
    ∷ []

abbrev settled_health : Probe → Result DependencyHealth → DependencyHealth
settled_health p (ok health) = health
settled_health p (thrown e) = record {
  name = p.name;
  status = down;
  critical = p.critical;
  detail = some (error_message e);
}

unfoldable pub to_dependency_health : Probe → DependencyHealth
unfolding error_message
to_dependency_health p = settled_health p p.ping

-- The set of the names that are down, and the log.
pub record HealthState : Type 0 where
  pub down_dependencies : List Text
  pub log : List LogLine

unfoldable pub is_member : Text → List Text → Bool
unfolding any text_eq
is_member n names = any (λ m. text_eq m n) names

unfoldable pub without : Text → List Text → List Text
unfolding keep text_eq
without n names = keep (λ m. not (text_eq m n)) names

abbrev detail_text : Option Text → Text
detail_text none = []
detail_text (some []) = []
detail_text (some (c ∷ s)) = str ": " ++ (c ∷ s)

abbrev pub is_down : DependencyHealth → Text
is_down d = str "Dependency " ++ (d.name ++ (str " is down" ++ detail_text d.detail))

abbrev pub recovered : DependencyHealth → Text
recovered d = str "Dependency " ++ (d.name ++ str " recovered")

abbrev pub transition_to : Status → DependencyHealth → HealthState → HealthState
transition_to down d s = if is_member d.name s.down_dependencies then s else record {
  down_dependencies = s.down_dependencies ++ d.name ∷ [];
  log = s.log ++ warn (is_down d) ∷ [];
}
transition_to up d s =
    if is_member d.name s.down_dependencies
    then record {
      down_dependencies = without d.name s.down_dependencies;
      log = s.log ++ info (recovered d) ∷ [];
    }
    else s

unfoldable pub transition : DependencyHealth → HealthState → HealthState
unfolding is_member without
transition d s = transition_to d.status d s

unfoldable pub report_transitions : List DependencyHealth → HealthState → HealthState
unfolding transition
report_transitions [] s = s
report_transitions (d ∷ ds) s = report_transitions ds (transition d s)

pub record HealthReport : Type 0 where
  pub healthy : Bool
  pub dependencies : List DependencyHealth

abbrev pub is_fine : DependencyHealth → Bool
is_fine d = not d.critical || is_up d.status

unfoldable pub report : List Probe → HealthState → HealthReport × HealthState
unfolding report_transitions to_dependency_health every
report probes s =
    let dependencies = map to_dependency_health probes in
    (
      record { healthy = every is_fine dependencies; dependencies = dependencies },
      report_transitions dependencies s,
    )

unfoldable pub execute : List Probe → HealthState → HealthReport × HealthState
unfolding report
execute probes s = report probes s

unfoldable pub check_readiness : List Probe → HealthState → HealthReport × HealthState
unfolding report keep
check_readiness probes s = report (keep (λ p. p.critical) probes) s

-- The answer of the controller: status code, `status` and `info` of the body.
pub record HealthAnswer : Type 0 where
  pub status_code : ℕ
  pub status : Text
  pub info : Dict Status

unfoldable pub info_of : List DependencyHealth → Dict Status → Dict Status
unfolding put
info_of [] statuses = statuses
info_of (d ∷ ds) statuses = info_of ds (put d.name d.status statuses)

unfoldable pub render : HealthReport → HealthAnswer
unfolding info_of
render r = record {
  status_code = if r.healthy then 200 else 503;
  status = if r.healthy then str "ok" else str "error";
  info = info_of r.dependencies [];
}

unfoldable pub health : List Probe → HealthState → HealthAnswer × HealthState
unfolding execute render
health probes s = let (r, s') = execute probes s in (render r, s')

unfoldable pub ready : List Probe → HealthState → HealthAnswer × HealthState
unfolding check_readiness render
ready probes s = let (r, s') = check_readiness probes s in (render r, s')

unfoldable pub live : HealthAnswer
unfolding render
live = render (record { healthy = true; dependencies = [] })
