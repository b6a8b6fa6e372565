-- ===== src/Import.antt =====
-- The import of the chapters that an extraction found: internal/jobs/chapter_import.go.
pub mod Units
pub mod Images
pub mod Chapters
pub mod Kept
pub mod Recorded
pub mod ReadBack
mod Tests
