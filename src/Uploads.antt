-- ===== src/Uploads.antt =====
-- Uploads: the policies of the namespaces (internal/assets/policy.go), the session of an upload and its
-- completion (internal/assets/service.go, internal/postgres/store.go).
pub mod Policy
pub mod Store
pub mod Steps
pub mod Checks
pub mod Complete
pub mod Names
pub mod Create
pub mod Replays
pub mod Created
pub mod Checked
pub mod Stays
pub mod Requested
pub mod Rescans
pub mod Requests
pub mod Repeats
mod CreateTests
mod Tests
