-- ===== src/Wakes.antt =====
-- The wake table of the recording lanes (internal/postgres/recording_event.go, schema
-- internal/migrations/sql/047_recording_event_wakes.sql). Each statement is one function on the
-- table; `now` is the transaction's `now()` in microseconds.
pub mod Table
pub mod Dispatch
pub mod Lease
pub mod Keyed
pub mod Fencing
pub mod Exclusive
pub mod LiveFirst
pub mod Capacity
pub mod Job
mod Tests
