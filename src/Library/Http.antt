-- ===== src/Library/Http.antt =====
-- internal/library/http.go: the handlers of the library's endpoints.
pub mod Media
pub mod Features
pub mod Removal
pub mod Settings
pub mod Names
pub mod Checks
pub mod Requests
