-- ===== src/Startup.antt =====
-- The entry points: src/process-safety-net.ts, src/app.setup.ts, src/swagger.setup.ts, src/seed and the
-- factories of the clients.
pub mod SafetyNet
pub mod Docs
pub mod Seed
pub mod Clients
