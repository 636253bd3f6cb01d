-- ===== src/Db.antt =====
-- The database behind the repositories: its tables (Db/Schema) and the transaction that every
-- repository method opens (Db/Work).

mod Schema
mod Work
pub mod Atomicity
pub mod Connections
pub mod Healthy
unfoldable pub use Schema.*
unfoldable pub use Work.*
