-- ===== src/Broker.antt =====
-- The broker adapters, backend/app/brokers.
pub mod Status
pub mod Body
pub mod Payload
pub mod Stream
pub mod Transport
mod Tests
