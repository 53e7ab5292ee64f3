-- ===== src/Store.antt =====
-- internal/store: the tables, their rows, and the operations of each repository.
pub mod Table
pub mod Records
pub mod Db
pub mod Runs
pub mod Jobs
pub mod Tasks
pub mod Idempotency
pub mod Fingerprints
pub mod Artifacts
pub mod Controls
pub mod Publications
pub mod SplitGroups
pub mod Manifests
pub mod Cleanup
pub mod Legal
