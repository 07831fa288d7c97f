-- ===== src/Rep.antt =====
-- The package rep: the events of a retrieval and their publisher.
pub mod Event
pub mod Logging
pub mod Publisher
mod Tests
