-- ===== src/Stage.antt =====
-- The event bus and the stages on it: backend/app/engine/bus.py, stage.py, brokers/ratelimit.py.
pub mod Bus
pub mod FeedHealth
pub mod TokenBucket
pub mod RiskStage
pub mod Cascade
pub mod Gate
mod Tests
