-- ===== src/Service.antt =====
-- internal/app/service.go: the service over the state database, the journals and the model
-- directories.
pub mod State
pub mod Hoare
pub mod Verify
pub mod Lookup
pub mod Effects
pub mod Release
pub mod Gc
pub mod Recover
pub mod Download
pub mod Ensure
