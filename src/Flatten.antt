-- ===== src/Flatten.antt =====
-- The flatten controller, backend/app/engine/flatten_controller.py.
pub mod Exposure
pub mod Controller
pub mod Tick
pub mod Window
mod Tests
