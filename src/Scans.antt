-- ===== src/Scans.antt =====
-- Malware scans of uploaded assets: the statements of internal/postgres/store.go that carry a scan, in
-- any order.
pub mod Table
pub mod Requeue
pub mod Steps
pub mod Verdicts
pub mod Overtaken
pub mod Job
mod Tests
