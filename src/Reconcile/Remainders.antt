-- ===== src/Reconcile/Remainders.antt =====
-- The fourth step of the orders, `_retry_unapplied_remainders` of
-- backend/app/services/reconciliation.py: each parked remainder that no companion row resolved is
-- applied to the lots again. The key of an event row is its place in the log.
use roi_gen.Base.{
  ℕ, ◌+◌, Bool, true, false, not, ◌&&◌, Option, none, some, List, [], ◌∷◌, ◌++◌, ℤ, ltb, leb, ◌==◌,
  if◌then◌else◌, column_is, select, any, length,
}
use roi_gen.Models.Enums.{OrderSide, EventSource}
use roi_gen.Models.Rows.{Event, EventLog, Db}
use roi_gen.Execution.Lots.{LotFill, LotApplication, apply_fill_to_lots}
use roi_gen.Execution.Lots.Absorbed.{resolves, row_id}
use roi_gen.Reconcile.Adopt.{log_run}
pub mod Open
pub mod Keys
pub mod Balanced
pub mod Retried
pub mod Accounted
mod Tests

-- An anomaly row: its key and the payload that its writer gave it.
pub record Remainder : Type 0 where
  pub anomaly_id : ℕ
  pub portfolio_id : ℕ
  pub symbol : ℕ
  pub side : OrderSide
  pub qty : ℕ
  pub price : ℤ
  pub occurred_at : ℕ
  pub order_id : Option ℕ
  pub fill_id : Option ℕ

abbrev pub remainder_of : ℕ → Event → Option Remainder
remainder_of i (Event.unapplied_remainder p s side qty price at order fill superseded) =
    some (record {
      anomaly_id = i;
      portfolio_id = p;
      symbol = s;
      side = side;
      qty = qty;
      price = price;
      occurred_at = at;
      order_id = order;
      fill_id = fill;
    })
remainder_of i _ = none

abbrev pub listed_remainder : Option Remainder → List Remainder
listed_remainder none = []
listed_remainder (some m) = m ∷ []

-- The anomalies of a portfolio, the oldest first.
unfoldable pub anomalies : ℕ → List EventLog → List Remainder
anomalies portfolio [] = []
anomalies portfolio (e ∷ log) =
    anomalies portfolio log
    ++ listed_remainder
        (if column_is e.portfolio_id portfolio then remainder_of (row_id log) e.event else none)

-- The companion rows of an anomaly.
abbrev pub has_resolution : ℕ → ℕ → List EventLog → Bool
has_resolution portfolio i = any (λ e. resolves i e.event && column_is e.portfolio_id portfolio)

abbrev pub is_retry_failed : ℕ → Event → Bool
is_retry_failed i (Event.remainder_retry_failed k s qty cycle) = k == i
is_retry_failed i _ = false

abbrev pub failed_cycles : ℕ → ℕ → List EventLog → ℕ
failed_cycles portfolio i log =
    length (select (λ e. is_retry_failed i e.event && column_is e.portfolio_id portfolio) log)

abbrev pub is_alert : ℕ → Event → Bool
is_alert i (Event.remainder_alert k s qty cycles) = k == i
is_alert i _ = false

abbrev pub is_alerted : ℕ → ℕ → List EventLog → Bool
is_alerted portfolio i = any (λ e. is_alert i e.event && column_is e.portfolio_id portfolio)

abbrev pub remainder_alert_cycles : ℕ
remainder_alert_cycles = 3

abbrev pub retry_fill : ℕ → Remainder → LotFill
retry_fill portfolio m = record {
  portfolio_id = portfolio;
  strategy_id = none;
  symbol = m.symbol;
  side = m.side;
  qty = m.qty;
  price = m.price;
  occurred_at = m.occurred_at;
  order_id = m.order_id;
  fill_id = m.fill_id;
  record_unapplied = false;
}

abbrev pub companion : ℕ → Remainder → Event → Db → Db
companion portfolio m = log_run EventSource.system portfolio m.order_id

abbrev pub resolution : Remainder → LotApplication → Event
resolution m r =
    Event.remainder_resolved m.anomaly_id m.symbol r.qty_closed r.realized_pnl r.unapplied_qty

abbrev pub residual : Remainder → ℕ → Event
residual m qty =
    Event.unapplied_remainder m.portfolio_id m.symbol m.side qty m.price m.occurred_at m.order_id
      m.fill_id (some m.anomaly_id)

-- Where something was applied: the anomaly is resolved, and the rest is a new one.
abbrev pub log_applied : ℕ → Remainder → LotApplication → Db → Db
log_applied portfolio m r db =
    let resolved = companion portfolio m (resolution m r) db in
    if ltb 0 r.unapplied_qty
    then companion portfolio m (residual m r.unapplied_qty) resolved
    else resolved

abbrev pub log_failed : ℕ → Remainder → (cycle : ℕ) (alerted : Bool) → Db → Db
log_failed portfolio m cycle alerted db =
    let failed =
      companion portfolio m (Event.remainder_retry_failed m.anomaly_id m.symbol m.qty cycle) db in
    if leb remainder_alert_cycles cycle && not alerted
    then companion portfolio m (Event.remainder_alert m.anomaly_id m.symbol m.qty cycle) failed
    else failed

-- By what the retry of one anomaly applied; `before` is the log as the pass read it.
abbrev pub log_retry : ℕ → List EventLog → Remainder → LotApplication × Db → ℕ → ℕ × Db
log_retry portfolio before m (r, db) applied_count =
    if ltb 0 r.qty_closed then (applied_count + 1, log_applied portfolio m r db) else (
      applied_count,
      log_failed portfolio m (failed_cycles portfolio m.anomaly_id before + 1)
          (is_alerted portfolio m.anomaly_id before) db,
    )

unfoldable pub retry_one : ℕ → List EventLog → Remainder → ℕ × Db → ℕ × Db
retry_one portfolio before m (applied_count, db) =
    if has_resolution portfolio m.anomaly_id before
    then (applied_count, db)
    else log_retry portfolio before m (apply_fill_to_lots (retry_fill portfolio m) db) applied_count

unfoldable pub retry_each : ℕ → List EventLog → List Remainder → ℕ × Db → ℕ × Db
unfolding retry_one
retry_each portfolio before [] state = state
retry_each portfolio before (m ∷ ms) state =
    retry_each portfolio before ms (retry_one portfolio before m state)

unfoldable pub retry_unapplied_remainders : ℕ → Db → ℕ × Db
unfolding anomalies retry_each
retry_unapplied_remainders portfolio db =
    retry_each portfolio db.event_log (anomalies portfolio db.event_log) (0, db)
