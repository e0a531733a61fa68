-- ===== src/Broadcast.antt =====
-- The playable range of a broadcast (internal/assets/recording_broadcast_range.go): which changes of
-- the persisted range are accepted, and what clients are shown of it.
pub mod Range
pub mod Changes
pub mod Projection
mod Tests
