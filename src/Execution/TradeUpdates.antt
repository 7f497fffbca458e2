-- ===== src/Execution/TradeUpdates.antt =====
-- The trade-updates writer, backend/app/engine/execution/trade_updates.py: one event of the
-- broker's stream applied to the database, then to the bus. A raised exception is `none`: the
-- transaction is rolled back. What `get_order` of the broker adapter answers is the argument
-- `fetch`, where `none` is an exception; the quotient of decimals is `divide`.
use roi_gen.Base.{
  ℕ, ◌+◌, ◌-◌, min, Bool, true, false, ◌&&◌, not, Option, none, some, List, [], ◌∷◌, ◌++◌, ℤ, pos,
  ◌+ℤ◌, ◌-ℤ◌, ◌*ℤ◌, leb, ltb, ◌==◌, if◌then◌else◌, column_is, is_some, find,
}
use roi_gen.Models.Enums.{
  OrderSide, OrderClass, OrderStatus, EventSource, StatusText, known, unknown, TransitionPlan,
  apply, stale, terminal_conflict,
}
use roi_gen.Models.Rows.{
  Order, Fill, FillKey, execution, span, noexec, Event, EventLog, Db, put_order,
}
use roi_gen.Execution.State.{BrokerOrder, is_absorbing, apply_snapshot}
use roi_gen.Execution.Synthesis.{
  applied_ledger, recorded, span_price, positive_span_price, synthesize_span, book_fill, gap_tag,
}
use roi_gen.Execution.Legs.{children, persist_bracket_legs}
pub mod Process
pub mod Gap
pub mod Execution
pub mod Surroundings
pub mod Recorded
pub mod Stored
pub mod Stream
pub mod Tests

pub record TradeUpdate : Type 0 where
  pub order : BrokerOrder
  pub execution_id : Option ℕ
  pub price : Option ℤ
  pub qty : Option ℕ
  pub position_qty : Option ℤ
  pub timestamp : ℕ

pub record FillEvent : Type 0 where
  pub portfolio_id : ℕ
  pub order_id : ℕ
  pub symbol : ℕ
  pub side : OrderSide
  pub qty : ℕ
  pub price : ℤ
  pub occurred_at : ℕ
  pub position_qty : Option ℤ
  pub strategy_id : Option ℕ

-- `session.add(EventLog(...))` about an order.
abbrev pub log_order : EventSource → Order → Event → Db → Db
log_order source o e db = record db {
  event_log =
      record {
        source = source;
        portfolio_id = some o.portfolio_id;
        strategy_id = o.strategy_id;
        order_id = some o.id;
        event = e;
      }
      ∷ db.event_log;
}

-- The key of an execution: the broker's, or one made from the cumulative quantity.
abbrev pub fill_key : Order → TradeUpdate → FillKey
fill_key o u = elim u.execution_id [ none ↦ noexec o.id u.order.filled_qty | some e ↦ execution e ]

abbrev pub log_missing_id : Order → TradeUpdate → Db → Db
log_missing_id o u db =
    if is_some u.execution_id
    then db
    else log_order EventSource.broker o
        (Event.fill_missing_execution_id u.order.broker_order_id (fill_key o u)) db

module _ (divide : ℤ → ℕ → ℤ) where
  -- The cumulative average before this execution. `-` on quantities stops at 0, where the code
  -- tests `prior_qty <= 0`.
  unfoldable pub prior_avg : BrokerOrder → ℕ → ℤ → Option ℤ
  prior_avg b qty price = elim b.filled_avg_price [
    | none ↦ none
    | some avg ↦
        if leb (b.filled_qty - qty) 0
        then some avg
        else some (divide (pos b.filled_qty *ℤ avg -ℤ pos qty *ℤ price) (b.filled_qty - qty))
  ]

  pub book_gap : Order → ℕ → ℕ → ℕ → Db → ℤ → Db
  book_gap o gap_qty occurred_at broker_cum db price =
      log_order EventSource.engine o (Event.gap_synthesized gap_qty price broker_cum)
        (synthesize_span divide o gap_qty price occurred_at gap_tag true db)

  pub synthesize_gap : Order → ℕ → Option ℤ → ℕ → ℕ → Db → Option Db
  synthesize_gap o expected_prior avg occurred_at broker_cum db =
      let applied = applied_ledger db o.id in
      let gap_qty = expected_prior - applied.qty in
      if leb expected_prior applied.qty
      then some db
      else elim (span_price divide expected_prior avg applied gap_qty) [
        | none ↦ none
        | some price ↦ some (book_gap o gap_qty occurred_at broker_cum db price)
      ]

  abbrev pub fill_event : Order → TradeUpdate → ℕ → ℤ → FillEvent
  fill_event o u qty price = record {
    portfolio_id = o.portfolio_id;
    order_id = o.id;
    symbol = o.symbol;
    side = o.side;
    qty = qty;
    price = price;
    occurred_at = u.timestamp;
    position_qty = u.position_qty;
    strategy_id = o.strategy_id;
  }

  -- The execution itself, after the gap before it has been filled.
  pub book_execution : Order → TradeUpdate → ℕ → ℤ → Db → Option FillEvent × Db
  book_execution o u qty price db =
      let effective = min qty (u.order.filled_qty - (applied_ledger db o.id).qty) in
      let db' = book_fill divide o (fill_key o u) effective price u.timestamp true db in
      if leb effective 0 then (none, db) else (
        some (fill_event o u effective price),
        if is_absorbing o.status
            then log_order EventSource.broker o
                (Event.terminal_fill_anomaly o.status effective price) db'
            else db',
      )

  pub record_priced : Order → TradeUpdate → ℕ → ℤ → Db → Option (Option FillEvent × Db)
  record_priced o u qty price db =
      let logged = log_missing_id o u db in
      if recorded (fill_key o u) logged.fills
      then some (none, logged)
      else elim (synthesize_gap o (u.order.filled_qty - qty) (prior_avg u.order qty price)
          u.timestamp u.order.filled_qty logged) [
            | none ↦ none
            | some db' ↦ some (book_execution o u qty price db')
          ]

  pub record_unpriced : Order → TradeUpdate → Db → Option (Option FillEvent × Db)
  record_unpriced o u db =
      elim (synthesize_gap o u.order.filled_qty u.order.filled_avg_price u.timestamp
        u.order.filled_qty db) [ none ↦ none | some db' ↦ some (none, db') ]

  pub record_with : Option ℕ → Option ℤ → Order → TradeUpdate → Db → Option (Option FillEvent × Db)
  record_with none price o u db = record_unpriced o u db
  record_with (some qty) none o u db = record_unpriced o u db
  record_with (some qty) (some price) o u db = record_priced o u qty price db

  abbrev pub record_execution : Order → TradeUpdate → Db → Option (Option FillEvent × Db)
  record_execution o u db = record_with u.qty u.price o u db
