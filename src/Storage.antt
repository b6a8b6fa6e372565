-- ===== src/Storage.antt =====
-- The file storage of images: internal/platform/storage.
pub mod Interface
pub mod Paths
pub mod Local
pub mod Safety
pub mod Promises
mod Tests
