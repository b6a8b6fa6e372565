-- ===== src/Events.antt =====
-- internal/platform/events/hub.go: publication and subscription by topic, with a bounded history
-- from which a subscriber resumes.
pub mod Hub
pub mod History
pub mod Runs
pub mod Resume
pub mod Isolation
mod Tests
