-- ===== src/Reconcile/Complete.antt =====
-- The four steps over all orders, `_reconcile_orders` of backend/app/services/reconciliation.py.
use roi_gen.Base.{ℕ, ◌≤◌, ◌≡◌, Bool, Option, some, List, [], ◌∷◌, ℤ}
use roi_gen.Models.Rows.{Order, Fill}
use roi_gen.Execution.State.{BrokerOrder}
use roi_gen.Execution.Synthesis.{filled_by}
use roi_gen.Reconcile.Adopt.{OrderTree}
use roi_gen.Reconcile.Orders.{Run, local_twin}
use roi_gen.Reconcile.Grows.{Grows}
use roi_gen.Reconcile.Steps.{handled}

module _ (divide : ℤ → ℕ → ℤ) (portfolio now : ℕ) (synthesize_fills : Bool) where
  -- Of each open order, at its turn: if a local row is found for it, the row's recorded quantity
  -- ends at least at the order's cumulative quantity.
  abbrev pub CaughtUp : List (BrokerOrder × Option OrderTree) → Run → List Fill → Type 0
  CaughtUp [] run fills = Unit
  CaughtUp ((b, parent) ∷ rest) run fills =
      ((o : Order) → (local_twin b parent run).0 ≡ some o → b.filled_qty ≤ filled_by o.id fills)
      × ((r : Run)
          → handled divide portfolio now synthesize_fills b parent run ≡ some r
          → CaughtUp rest r fills)
