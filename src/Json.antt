-- ===== src/Json.antt =====
-- The repair of the JSON that a model prints: internal/extraction/nuextract/provider.go.
pub mod Repair
pub mod Reading
pub mod Closing
pub mod Commas
mod Tests
