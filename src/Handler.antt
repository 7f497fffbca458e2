-- ===== src/Handler.antt =====
-- The execution handler, the only caller of the broker's order mutations:
-- backend/app/engine/execution/handler.py.
pub mod Submit
pub mod Entry
pub mod Flatten
pub mod FlattenEvents
pub mod Tests
