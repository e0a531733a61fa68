-- ===== src/Packages.antt =====
-- Recording packages: the inventory that a client declares (internal/assets/recording_package.go).
pub mod Renditions
pub mod Inventory
pub mod Complete
mod Tests
