-- ===== src/EventStore.antt =====
-- event-store: the platform's events and dead letters, how they arrive, are listed and expire.
pub mod Rows
pub mod Cursors
pub mod Listing
pub mod Distinct
pub mod Arrivals
pub mod DeadLetters
pub mod Replay
pub mod Retention
pub mod Requests
pub mod DlqListing
pub mod Routes
mod Tests
