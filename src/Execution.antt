-- ===== src/Execution.antt =====
-- The execution side of the engine, backend/app/engine/execution.
pub mod Lots
pub mod State
pub mod Positions
pub mod Synthesis
pub mod Legs
pub mod TradeUpdates
pub mod Subscriber
