-- ===== src/Examples.antt =====
-- Runs of the models at concrete inputs, and for each theorem with hypotheses an input that meets them.
pub mod Edge
pub mod Counters
pub mod Data
pub mod Indices
pub mod Queries
pub mod Service
pub mod Cached
pub mod Operations
pub mod Wiring
pub mod Gate
