-- ===== src/Accounts.antt =====
-- internal/auth: accounts, sign-in and tokens.
pub mod Types
pub mod AccessTokens
pub mod Password
pub mod Sessions
pub mod Issued
pub mod OneTime
pub mod Refresh
pub mod Register
pub mod Credentials
pub mod Provider
pub mod Federated
pub mod Atomic
pub mod Examples
mod Tests
