-- ===== src/Worker.antt =====
-- The worker pool that runs the queue's jobs: internal/worker/worker.go.
pub mod Pool
pub mod Settling
pub mod Sqlite
mod Tests
