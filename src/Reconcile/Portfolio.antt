-- ===== src/Reconcile/Portfolio.antt =====
-- A whole run: `reconcile_portfolio` of backend/app/services/reconciliation.py.
use roi_gen.Base.{ℕ, Bool, Option, none, some, List, ◌∷◌, ℤ, select, ◌==◌}
use roi_gen.Models.Enums.{EventSource}
use roi_gen.Models.Rows.{Order, Event, Db}
use roi_gen.Risk.State.{BrokerAccount, EquitySnapshot}
use roi_gen.Reconcile.Adopt.{OrderTree, Broker, log_run}
use roi_gen.Reconcile.Orders.{Run}
use roi_gen.Reconcile.AllOrders.{reconcile_orders}
use roi_gen.Reconcile.Positions.{PositionReport, reconcile_positions}
pub mod Outcome

-- The three reads that a run begins with; `none` is a raised broker error.
pub record Snapshots : Type 0 where
  pub account : Option BrokerAccount
  pub positions : Option (List PositionReport)
  pub open_orders : Option (List OrderTree)

pub record ReconcileResult : Type 0 where
  pub portfolio_id : ℕ
  pub positions_synced : ℕ
  pub positions_removed : ℕ
  pub orders_updated : ℕ
  pub orphans : ℕ
  pub missing : ℕ
  pub fills_synthesized : ℕ
  pub equity : ℤ

-- The session with the table of equity snapshots, and the result.
pub record Reconciled : Type 0 where
  pub result : ReconcileResult
  pub snapshots : List EquitySnapshot
  pub db : Db

abbrev pub snapshot_row : ℕ → BrokerAccount → EquitySnapshot
snapshot_row portfolio account = record { portfolio_id = portfolio; equity = account.equity }

abbrev pub result_of : ℕ → BrokerAccount → Run → ℕ × ℕ → ReconcileResult
result_of portfolio account run (synced, removed) = record {
  portfolio_id = portfolio;
  positions_synced = synced;
  positions_removed = removed;
  orders_updated = run.updated;
  orphans = run.orphans;
  missing = run.missing;
  fills_synthesized = run.synthesized;
  equity = account.equity;
}

abbrev pub completed : ReconcileResult → Event
completed r =
    Event.reconcile_completed r.positions_synced r.positions_removed r.orders_updated r.orphans
      r.missing r.fills_synthesized r.equity

-- After the orders: the positions, and the audit row.
pub finish : ℕ → BrokerAccount → List PositionReport → List EquitySnapshot → Run → Reconciled
unfolding reconcile_positions
finish portfolio account bs snapshots run =
    let (counts, positions) =
      reconcile_positions portfolio account.position_market_value bs run.db.positions in
    let result = result_of portfolio account run counts in
    record {
      result = result;
      snapshots = snapshots;
      db =
          log_run EventSource.system portfolio none (completed result)
            (record run.db { positions = positions });
    }

abbrev pub finish_run :
    ℕ → BrokerAccount → List PositionReport → List EquitySnapshot → Option Run → Option Reconciled
finish_run portfolio account bs snapshots none = none
finish_run portfolio account bs snapshots (some run) =
    some (finish portfolio account bs (snapshot_row portfolio account ∷ snapshots) run)

module _ (divide : ℤ → ℕ → ℤ) (portfolio now : ℕ) (synthesize_fills : Bool)
    (broker later : Broker) where
  pub reconcile_portfolio : Snapshots → List EquitySnapshot → Db → Option Reconciled
  unfolding reconcile_orders
  reconcile_portfolio reads snapshots db = elim reads.account [
    | none ↦ none
    | some account ↦ elim reads.positions [
      | none ↦ none
      | some bs ↦ elim reads.open_orders [
        | none ↦ none
        | some open_orders ↦ finish_run portfolio account bs snapshots (
            reconcile_orders divide portfolio now synthesize_fills broker later open_orders
              (select (λ o. o.portfolio_id == portfolio) db.orders) db)
      ]
    ]
  ]
