-- ===== src/Api.antt =====
-- The HTTP endpoints of the jobs: internal/jobs/http.go.
pub mod Jobs
pub mod Answers
pub mod Stream
pub mod Redact
mod Tests
