-- ===== src/Store.antt =====
-- server/internal/store/store.go: the tables, the statements that each method runs, and what the
-- methods promise.
pub mod Rows
pub mod Db
pub mod Table
pub mod Keeps
pub mod TwoFactor
pub mod Settings
pub mod History
pub mod Tokens
pub mod Devices
pub mod Sessions
