-- ===== src/Store.antt =====
-- The PostgreSQL store as the services use it: the tables and the connection
-- (internal/store/db/models.go, db.go), and the queries that sqlc generates.
mod Tables
mod Exec
pub mod Bind
pub mod Keeps
pub mod Queries
pub mod Entities
pub mod Undone
pub mod Returns
pub mod Reliable
pub mod Keyset
pub mod Users
pub mod Tokens
pub use Tables.*
unfoldable pub use Exec.*
