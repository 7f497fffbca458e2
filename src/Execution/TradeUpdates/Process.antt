-- ===== src/Execution/TradeUpdates/Process.antt =====
-- One event of the stream from its order's row to the end of the transaction: `_process`, `_locate`
-- and what they call in backend/app/engine/execution/trade_updates.py, and `_ensure_legs`.
use roi_gen.Base.{
  ℕ, Bool, true, false, ◌&&◌, not, Option, none, some, List, [], ◌∷◌, ℤ, ◌==◌, if◌then◌else◌,
  column_is, is_some, find,
}
use roi_gen.Models.Enums.{
  OrderClass, OrderStatus, EventSource, StatusText, known, TransitionPlan, apply,
}
use roi_gen.Models.Rows.{Order, Event, Db, put_order, flushed}
use roi_gen.Execution.State.{BrokerOrder, apply_snapshot}
use roi_gen.Execution.Legs.{children, persist_bracket_legs}
use roi_gen.Execution.TradeUpdates.{TradeUpdate, FillEvent, log_order, record_execution}

-- Adopting a row that was guessed to have never been placed.
abbrev pub is_failed : StatusText → Bool
is_failed (known OrderStatus.failed) = true
is_failed _ = false

unfoldable pub resurrect : Order → TradeUpdate → Db → Order × Db
resurrect o u db =
    if is_failed o.status
    then (
      record o { status = known OrderStatus.pending_submit },
      log_order EventSource.broker o
          (Event.failed_resurrected o.client_order_id u.order.broker_order_id u.order.status) db,
    )
    else (o, db)

abbrev pub log_skipped : TransitionPlan → StatusText → Order → TradeUpdate → Db → Db
log_skipped apply before o u db = db
log_skipped plan before o u db =
    log_order EventSource.broker o
      (Event.snapshot_skipped plan before (known u.order.status) o.filled_qty u.order.filled_qty) db

abbrev pub is_bracket : OrderClass → Bool
is_bracket OrderClass.bracket = true
is_bracket _ = false

abbrev pub no_rows : List Order → Bool
no_rows [] = true
no_rows (o ∷ os) = false

module _ (fetch : ℕ → Option (Option (List BrokerOrder))) where
  abbrev pub adopt_fetched : Option (Option (List BrokerOrder)) → Order → Db → Db
  adopt_fetched (some (some legs)) o db = (persist_bracket_legs o legs db).0
  adopt_fetched _ o db = db

  unfoldable pub ensure_legs : Order → ℕ → Db → Db
  ensure_legs o broker_id db =
      if no_rows (children o.id db.orders) then adopt_fetched (fetch broker_id) o db else db

  unfoldable pub ensure_bracket : Order → Db → Db
  ensure_bracket o db = elim o.broker_order_id [
    | none ↦ db
    | some b ↦
        if is_bracket o.order_class && not (is_some o.parent_order_id)
        then ensure_legs o b db
        else db
  ]

  module _ (divide : ℤ → ℕ → ℤ) where
    -- The steps after the execution has been recorded.
    unfoldable pub apply_update : Order → TradeUpdate → Db → Db
    apply_update o u db =
        let (o', plan) = apply_snapshot o u.order in
        ensure_bracket o'
          (log_skipped plan o.status o' u (record db { orders = put_order o' db.orders }))

    -- `session.commit()`; an IntegrityError rolls everything back.
    abbrev pub committed : Option FillEvent × Db → Option (Option FillEvent × Db)
    committed (event, db) = flushed db.orders (event, db)

    unfoldable pub handle : Order → TradeUpdate → Db → Option (Option FillEvent × Db)
    handle o u db = elim (record_execution divide o u db) [
      | none ↦ none
      | some (event, db') ↦ committed (event, apply_update o u db')
    ]

    unfoldable pub process_located : Order → TradeUpdate → Db → Option (Option FillEvent × Db)
    process_located located u db = let (o, logged) = resurrect located u db in handle o u logged

    -- The row of an update: by broker id, then by client id.
    unfoldable pub lookup_order : TradeUpdate → Db → Option Order
    lookup_order u db =
        elim (find (λ o. column_is o.broker_order_id u.order.broker_order_id) db.orders) [
          | some o ↦ some o
          | none ↦ elim u.order.client_order_id [
            | none ↦ none
            | some c ↦ find (λ o. o.client_order_id == c) db.orders
          ]
        ]

    -- Each attempt of `_locate` reads the database as it is then: other writers commit while the
    -- stage sleeps. The first view in which the row is found is the one that is worked on.
    unfoldable pub locate : TradeUpdate → List Db → Option (Order × Db)
    locate u [] = none
    locate u (db ∷ views) =
        let rest = locate u views in
        elim (lookup_order u db) [ none ↦ rest | some o ↦ some (o, db) ]

    abbrev pub orphaned : TradeUpdate → Db → Db
    orphaned u db = record db {
      event_log =
          record {
            source = EventSource.broker;
            portfolio_id = none;
            strategy_id = none;
            order_id = none;
            event =
                Event.orphan u.order.broker_order_id u.order.symbol u.order.status
                  u.order.filled_qty;
          }
          ∷ db.event_log;
    }

    -- `_process`: the views of the attempts, and the database at the end of the last of them.
    unfoldable pub process : TradeUpdate → List Db → Db → Option (Option FillEvent × Db)
    unfolding locate
    process u views last = elim (locate u views) [
      | none ↦ some (none, orphaned u last)
      | some (o, db) ↦ process_located o u db
    ]
