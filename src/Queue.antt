-- ===== src/Queue.antt =====
-- The durable queue: internal/platform/queue and its implementation over SQLite.
pub mod Types
pub mod Table
pub mod Sqlite
pub mod Valkey
