-- ===== src/Events.antt =====
-- The events that the node service publishes: internal/events.
pub mod Broker
pub mod Operations
