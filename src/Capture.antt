-- ===== src/Capture.antt =====
-- Recording captures: the service of internal/assets/recording_capture.go with its recovery clock
-- (recording_recovery.go) and signal (recording_capture_signal.go), over the transaction of
-- internal/postgres/recording_capture.go.
pub mod Model
pub mod Objects
pub mod Recovery
pub mod Mutate
pub mod Declare
pub mod Confirm
pub mod Seal
pub mod Signal
pub mod Run
pub mod Receipts
pub mod Offline
pub mod Counters
pub mod Cutoff
pub mod Watermark
pub mod Store
pub mod Expiry
pub mod States
pub mod Sealing
pub mod Lengths
pub mod Bounds
mod Fixtures
mod SealedTests
mod Tests
