-- ===== src/Lib.antt =====
-- A model of the product search API, and the theorems that make it correct. The service is a NestJS
-- program in front of Elasticsearch, with Redis as cache and as shared rate limit counter.
--
-- A request passes the rate limiter, then the API key check, then a controller that asks the cache and,
-- on a miss, Elasticsearch; whatever is thrown becomes an answer in the exception filter. Apart from
-- that, the seed command provisions an index, loads the catalogue and publishes it.
--
-- Which file models what (paths from the root of the repository):
--   Shared, Shared/Paths      src/shared/error-message.ts, operator-paths.ts
--   Auth                      src/presentation/auth/api-key.identity.ts, api-key.guard.ts
--   RateLimit/Memory          src/infrastructure/rate-limit/in-memory-rate-limit.store.ts
--   RateLimit/Redis           src/infrastructure/rate-limit/redis-rate-limit.store.ts
--   RateLimit/Failover        src/infrastructure/rate-limit/failover-rate-limit.store.ts
--   RateLimit/Throttler       src/infrastructure/rate-limit/throttler-store.adapter.ts
--   RateLimit/Options         src/presentation/rate-limit/rate-limit.options.ts and
--                             src/presentation/common/docs-rate-limit.middleware.ts
--   Errors                    src/presentation/common/all-exceptions.filter.ts, api-routes.ts
--   Cache, Cache/Flight       src/application/caching/cache-aside.ts
--   Domain                    src/domain/product/money.value-object.ts, product.entity.ts
--   Index/Version             src/infrastructure/elasticsearch/index/physical-index.version.ts
--   Index/Fingerprint         src/infrastructure/elasticsearch/index/index-definition.fingerprint.ts
--   Index/Bulk                src/infrastructure/elasticsearch/index/product-bulk.ts, product-document.ts
--   Index/Cluster             src/infrastructure/elasticsearch/es-errors.ts and the client's calls
--   Index/Adapter             src/infrastructure/elasticsearch/index/product-index.adapter.ts, with
--                             publishIndex in Index/Adapter/Publication
--   Index/Seed                src/application/use-cases/seed-catalog.use-case.ts
--   Search                    src/application/models/search-criteria.ts and the other search models
--   Search/Query              src/infrastructure/elasticsearch/search/query, suggest.builder.ts;
--                             the whole request is in Search/Query/Request
--   Search/Adapter            src/infrastructure/elasticsearch/search: the adapter and its mappers
--   Search/Completion         src/infrastructure/elasticsearch/autocomplete, suggest-response.mapper.ts
--   Search/Controller         src/presentation/search and the limits of src/presentation/common
--   Search/Keys               src/application/caching: the cache keys and their scopes
--   Health                    src/application/use-cases/check-health.use-case.ts, the probes, and
--                             src/presentation/health
--   Config                    src/config/app-config.ts, and env.schema.ts in Config/Environment
--   Search/Suggestion         src/infrastructure/elasticsearch/suggestion/query-suggestion.adapter.ts
--   Cache/Store               src/infrastructure/redis/redis-cache.adapter.ts, and runs of calls over it
--   UseCases                  src/application/use-cases: the search, completion and suggestion use cases;
--                             cached-payload.schema.ts in UseCases/Payload, and the autocomplete and
--                             suggestion controllers with their DTOs in UseCases/Handlers
--   Index/Mapping             src/infrastructure/elasticsearch/index/product-index.mapping.ts
--   Observability             src/infrastructure/observability: Metrics, Tracing and Logger; the
--                             middlewares and the interceptor of src/presentation/common in Requests
--                             and Correlation; src/presentation/metrics in Endpoint
--   Startup                   src/process-safety-net.ts in SafetyNet, swagger.setup.ts in Docs, src/seed
--                             in Seed, app.setup.ts and the client factories in Clients
--   RateLimit/Guard, Gateway  src/rate-limit.module.ts, rate-limit.guard.ts, app.module.ts, api-auth.module.ts
--   LoadTest                  loadtest/lib/workload.js
--   Base, Json                shared helpers: texts, lists, maps, decimals, sorting, JSON values
--   Examples                  runs at concrete inputs
--
-- How state and calls are modelled. An object's fields are a record that its methods take and give
-- back. The clock is an argument. The rate limit store hit(key, windowMs) is `hit`, hitting Redis is
-- `redis_hit` over the commands of a server, and the two compose in `failover_hit`. `cacheAside` runs
-- against a `World` that says how each outside call ends; the map of loads in progress is a state of its
-- own over events in any order. The index adapter's methods (`ensureIndex` is `ensure_index`, and so on)
-- yield a tree of client calls, each followed by what the code does with any answer, so that a theorem
-- on the tree holds whatever the cluster does. A thrown error is a value.
--
-- A use case's `execute` is one call of `cacheAside` over the texts that Redis holds: what the call meets
-- (a failing read or write, a load in progress, the jitter) is given with it, and a run is a list of such
-- calls with entries lost in between. The metrics adapters record samples, the logger gives the line it
-- writes, and the tracing SDK and the process are the list of what is done to them.
--
-- Bounds. A text is the list of its UTF-16 code units. Counters and times are unbounded natural numbers:
-- JavaScript's are exact up to 2^53, which neither milliseconds nor counts reach. Prices and jitter are
-- exact fractions; the rounding of floating point is not modelled. All loops are structural recursion,
-- so no fuel is needed.
--
-- Parameters. node:crypto (SHA-256 and timingSafeEqual), the Redis commands with their documented
-- behaviour, the digests of the fingerprint and of the cache keys, the search client,
-- the guard class of @nestjs/throttler, zod with the
-- documented behaviour of its combinators, its check of a URL, JSON.parse and JSON.stringify,
-- decodeURIComponent, randomUUID, the reading of a date, and the text that a metrics registry renders.
--
-- Not modelled: Nest's dependency injection, main.ts, the text of the contract that Swagger builds,
-- the names of the throttler's headers, the response classes, the
-- scripts of the load test that only send requests, Elasticsearch and Redis themselves, and zod's coercion
-- of texts.

pub mod Auth
pub mod Base
pub mod Cache
pub mod Config
pub mod Domain
pub mod Errors
pub mod Examples
pub mod Gateway
pub mod Health
pub mod Index
pub mod Json
pub mod LoadTest
pub mod Observability
pub mod RateLimit
pub mod Search
pub mod Shared
pub mod Startup
pub mod UseCases
