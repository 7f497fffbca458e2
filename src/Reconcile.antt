-- ===== src/Reconcile.antt =====
-- Reconciliation with the broker: backend/app/services/reconciliation.py.
pub mod Adopt
pub mod Orders
pub mod AllOrders
pub mod Ledger
pub mod Grows
pub mod Positions
pub mod Steps
pub mod Complete
pub mod Remainders
pub mod Portfolio
mod Tests
