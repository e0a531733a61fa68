-- ===== src/Requests.antt =====
-- The outboxes of scan and derivative requests (internal/postgres/store.go) and their dispatchers
-- (internal/scanqueue/dispatcher.go, internal/derivativequeue/dispatcher.go).
pub mod Table
pub mod Dispatch
pub mod Delivery
mod Tests
