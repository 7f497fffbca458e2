-- ===== src/Kill.antt =====
-- The kill switch and its command log: backend/app/engine/kill_switch.py, engine/commands.py and
-- services/engine_commands.py under backend/app.
pub mod Switch
pub mod Sweeper
pub mod Service
pub mod Latest
pub mod Guard
pub mod Issue
pub mod Agreement
pub mod Verified
mod Tests
