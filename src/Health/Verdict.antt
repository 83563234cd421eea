-- ===== src/Health/Verdict.antt =====
-- The verdict of readiness, which asks the critical dependencies only, is the verdict of the whole.
use advanced_search_api.Base.{
  Text, Bool, true, false, ◌≡◌, refl, ◌↔◌, List, [], ◌∷◌, map, every, keep, All, arith, Bool-cases,
  inl, inr,
}
use advanced_search_api.Shared.{Result, ok, thrown}
use advanced_search_api.Health.{
  Probe, HealthState, to_dependency_health, is_fine, report, execute, check_readiness, health,
  ready, render, probes_of, elasticsearch_ping, redis_ping,
}

-- A probe that answers reports itself as critical exactly if it is.
abbrev pub IsHonest : Probe → Type 0
IsHonest p = (to_dependency_health p).critical ≡ p.critical

fine_if_minor :
    (p : Probe) → IsHonest p → p.critical ≡ false → is_fine (to_dependency_health p) ≡ true
fine_if_minor p h minor = ground arith

every_critical :
    (ps : List Probe)
    → All IsHonest ps
    → every is_fine (map to_dependency_health (keep (λ p. p.critical) ps))
      ≡ every is_fine (map to_dependency_health ps)
unfolding every keep
every_critical [] h = refl
every_critical (p ∷ ps) (h, hs) = elim (Bool-cases p.critical) [
  | inl major ↦ ground (arith, every_critical ps hs)
  | inr minor ↦ ground (arith, every_critical ps hs, fine_if_minor p h minor)
]

-- With probes that report their own criticality: `/health/ready` answers with the status code of
-- `/health`, whatever was down before, so no dependency that it leaves out would have changed it.
pub ready_status :
    (ps : List Probe) (s t : HealthState)
    → All IsHonest ps
    → (ready ps s).0.status_code ≡ (health ps t).0.status_code
unfolding ready health check_readiness execute report render
ready_status ps s t h = rw (every_critical ps h)

-- Over the two probes of the service: it is healthy exactly if Elasticsearch answers that the configured
-- index exists; what Redis answers does not matter.
pub health_status :
    (exists : Result Bool) (pong : Result Text) (s : HealthState)
    → ((health (probes_of exists pong) s).0.status_code ≡ 200) ↔ (exists ≡ ok true)
unfolding health execute report render probes_of every to_dependency_health elasticsearch_ping
    redis_ping
health_status (ok true) (ok pong) s = (λ h. refl, λ h. refl)
health_status (ok true) (thrown e) s = (λ h. refl, λ h. refl)
health_status (ok false) pong s = (λ h. absurd (omega arith), λ h. cc)
health_status (thrown e) pong s = (λ h. absurd (omega arith), λ h. cc)
