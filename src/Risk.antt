-- ===== src/Risk.antt =====
-- The risk engine, backend/app/engine/risk, with the order requests and the price rule that it
-- uses from backend/app/brokers.
pub mod Request
pub mod Controls
pub mod Engine
pub mod Sizing
pub mod Prices
pub mod Verdict
pub mod State
pub mod Entry
pub mod Flatten
pub mod Tests
