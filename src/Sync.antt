-- ===== src/Sync.antt =====
-- internal/sync: the service behind POST /v1/sync.
pub mod Models
pub mod Validate
pub mod Convert
pub mod Sessions
pub mod Solves
pub mod Apply
pub mod Lock
pub mod Pages
pub mod Service
pub mod Keeps
pub mod Isolation
pub mod Sound
pub mod Replay
pub mod Atomic
pub mod Order
pub mod Stale
pub mod Rejection
pub mod Examples
pub mod Tests
pub mod Drain
pub use Models.*
