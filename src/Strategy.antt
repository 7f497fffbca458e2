-- ===== src/Strategy.antt =====
-- The strategies, and what runs them: backend/app/engine/strategies, strategy.py, loader.py and
-- feed_health.py.
pub mod Probe
pub mod Runner
pub mod Loader
mod Tests
