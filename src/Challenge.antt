-- ===== src/Challenge.antt =====
-- Short-lived handoffs of a browser session to a human: internal/platform/browser/challenge.go.
-- Times and durations are numbers of nanoseconds.
pub mod Types
pub mod Manager
pub mod Wait
pub mod Input
pub mod Rate
pub mod Http
pub mod Completion
pub mod Runs
mod Refinement
pub mod Invariant
pub mod Diagram
pub mod Control
pub mod Waiting
mod HttpTests
mod Tests
