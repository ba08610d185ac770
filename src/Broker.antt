-- ===== src/Broker.antt =====
-- The brokers: their policy and their checks of requests.
pub mod License
pub mod Validation
mod Tests
