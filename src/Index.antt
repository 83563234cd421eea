-- ===== src/Index.antt =====
-- src/infrastructure/elasticsearch/index and es-errors.ts: provisioning, migrating and loading the
-- product index; and the seed use case of src/application that drives it.
pub mod Mapping
pub mod Version
pub mod Fingerprint
pub mod Cluster
pub mod Bulk
pub mod Adapter
pub mod Seed
