-- ===== src/Audit.antt =====
-- The audit trail: the events that the service reports (internal/auditclient) and the outbox that
-- delivers them (internal/auditoutbox).
pub mod Model
pub mod Shapes
pub mod Checks
pub mod Event
pub mod Client
pub mod Outbox
pub mod Worker
pub mod Steps
pub mod Fenced
pub mod Enqueued
pub mod Counting
pub mod Settled
pub mod Rounds
pub mod Drained
mod Tests
