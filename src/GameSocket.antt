-- ===== src/GameSocket.antt =====
-- GameSocketServer: an HTTP server for registration and login, over a database of its own.

pub mod Decimal
pub mod Find
pub mod Effects
pub mod Store
pub mod Pool
pub mod AuthApi
pub mod UserDao
pub mod Session
pub mod Gateway
