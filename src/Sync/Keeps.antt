-- ===== src/Sync/Keeps.antt =====
-- What one user's synchronization keeps of the tables: from the statements to `sync`.
pub mod Closed
pub mod Entities
pub mod Sessions
pub mod Solves
pub mod Sequence
pub mod Mutations
pub mod Requests
