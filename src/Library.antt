-- ===== src/Library.antt =====
-- The library of media, chapters, collections and reading history: internal/library.
pub mod Types
pub mod Media
pub mod Chapters
pub mod Page
pub mod Features
pub mod Settings
pub mod Walk
pub mod Pages
pub mod Integrity
pub mod Runs
pub mod Deletion
pub mod RoundTrip
pub mod Http
mod Tests
