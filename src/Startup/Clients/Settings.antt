-- ===== src/Startup/Clients/Settings.antt =====
-- What the settings of the clients and of the application rule out.
use advanced_search_api.Base.{
  ℕ, suc, ◌≤◌, Text, Bool, false, ◌≡◌, refl, List, [], ◌∷◌, arith, ltb, length, any, text_eq,
  Bool-cases, inl, inr,
}
use advanced_search_api.Config.{AppConfiguration}
use advanced_search_api.Config.Environment.{production}
use advanced_search_api.Startup.Clients.{
  create_redis_client, CorsOrigin, listed, reflected, resolve_cors_origin,
}

-- Redis is tried again after a delay that grows with the attempts, and never beyond two seconds.
pub retry_strategy_bounds :
    (config : AppConfiguration) (times : ℕ)
    → 1 ≤ times
    → (200 ≤ (create_redis_client config).retry_strategy times)
      × ((create_redis_client config).retry_strategy times ≤ 2000)
      × ((create_redis_client config).retry_strategy times
          ≤ (create_redis_client config).retry_strategy (suc times))
unfolding create_redis_client
retry_strategy_bounds config times h = (ground arith, ground arith, ground arith)

-- An origin is let in by its list, or by a setting that reflects every origin.
abbrev pub admits_origin : CorsOrigin → Text → Bool
admits_origin (listed origins) origin = any (λ o. text_eq o origin) origins
admits_origin (reflected every_origin) origin = every_origin

-- In production a cross-origin page is let in exactly if its origin is a configured one.
pub resolve_cors_origin_iff :
    (config : AppConfiguration) (origin : Text)
    → config.app.node_env ≡ production
    → admits_origin (resolve_cors_origin config) origin
      ≡ any (λ o. text_eq o origin) config.app.cors_origins
unfolding resolve_cors_origin
resolve_cors_origin_iff config origin live =
    elim (Bool-cases (ltb 0 (length config.app.cors_origins))) [
      | inl some_listed ↦ rw some_listed refl
      | inr none_listed ↦ rw (none_listed, live) (no_origin config.app.cors_origins none_listed)
    ]
  where
    no_origin :
        (origins : List Text)
        → ltb 0 (length origins) ≡ false
        → false ≡ any (λ o. text_eq o origin) origins
    no_origin [] h = unfold any in refl
    no_origin (o ∷ os) h = ground arith
