-- ===== src/Lifecycle.antt =====
-- The purge of assets: internal/lifecycle/worker.go and its statements in internal/postgres/store.go.
pub mod Model
pub mod Table
pub mod Worker
pub mod Keys
pub mod Kept
pub mod Deleting
pub mod Purged
mod Tests
