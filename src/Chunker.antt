-- ===== src/Chunker.antt =====
-- The splitting of a page for a language model: internal/extraction/nuextract/chunker.go.
pub mod Text
pub mod Split
pub mod Markdown
pub mod Pieces
pub mod Bounds
pub mod Packing
mod Tests
