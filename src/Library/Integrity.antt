-- ===== src/Library/Integrity.antt =====
-- internal/library/sqlite: the primary keys, unique columns and references of the tables.
pub mod Tables
pub mod Changes
pub mod Chapters
pub mod Features
