-- ===== src/Playlists.antt =====
-- The playlists of a recording package: internal/assets/recording_playlist.go.
pub mod Floats
pub mod Text
pub mod Master
pub mod Media
pub mod Bitrates
pub mod Package
pub mod Attributes
pub mod Uris
pub mod Segments
pub mod Counting
pub mod Variants
pub mod Expected
pub mod Closed
mod Tests
