-- ===== src/Events.antt =====
-- src/events and include/events: events and their subscribers.
pub mod Publisher
pub mod Timer
pub mod Subscriber
pub mod Notices
mod Tests
