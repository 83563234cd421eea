-- ===== src/Observability.antt =====
-- src/infrastructure/observability and the middlewares of src/presentation/common: metrics, correlation
-- ids, logs and traces.
pub mod Metrics
pub mod Tracing
pub mod Endpoint
pub mod Requests
pub mod Correlation
pub mod Logger
