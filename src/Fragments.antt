-- ===== src/Fragments.antt =====
-- The sample durations of a fragmented MP4 file: internal/recordingvalidation/fragment_durations.go.
pub mod Boxes
pub mod Durations
pub mod Tiling
pub mod RoundTrip
pub mod Bounds
mod Tests
