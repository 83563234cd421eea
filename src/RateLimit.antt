-- ===== src/RateLimit.antt =====
-- The rate limiter: the counter stores and the bridge to the throttler
-- (src/infrastructure/rate-limit), and the choice of budget and client (src/presentation).
pub mod Guard
pub mod Memory
pub mod Redis
pub mod Failover
pub mod Throttler
pub mod Options
