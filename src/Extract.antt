-- ===== src/Extract.antt =====
-- The extraction job: internal/jobs/extract.go.
pub mod Visit
pub mod Sessions
pub mod Merge
pub mod Unique
pub mod Paging
pub mod Job
mod Tests
