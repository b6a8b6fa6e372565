-- ===== src/Routes.antt =====
-- The URLs of chapters and episodes that a page does not list: internal/jobs/unit_urls.go.
pub mod Template
pub mod Choice
pub mod Enrich
pub mod Counted
pub mod Linked
mod Tests
