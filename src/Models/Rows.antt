-- ===== src/Models/Rows.antt =====
-- The tables of backend/app/models/trading.py and telemetry.py, and a database session.
-- A UUID, a symbol or another text that the code only compares is a number. An instant is a
-- number of microseconds. A quantity is `Numeric(18, 9)`, a number of 10^-9 shares; a price is
-- `Numeric(18, 6)`, a number of 10^-6 dollars; a profit is their product, an integer in 10^-15.
use roi_gen.Base.{
  ℕ, Bool, true, false, not, ◌&&◌, Option, none, some, List, [], ◌∷◌, ℤ, ◌==◌, update_where, any,
  column_is, if◌then◌else◌,
}
use roi_gen.Models.Enums.{
  OrderSide, OrderType, OrderClass, TimeInForce, StatusText, EventSource, OrderStatus,
  TransitionPlan,
}

-- The JSON of `risk_approval`: the audit payload of the approval, by what it is bound to.
pub data ApprovalPayload : Type 0 where
  risk : (signal_id : ℕ) → ApprovalPayload
  flatten : (flatten_id : ℕ) → ApprovalPayload

-- What a flatten did about a symbol: `_SymbolOutcome` of engine/execution/handler.py.
pub data OutcomeText : Type 0 where
  submitted ambiguous rejected failed : OutcomeText

pub record SymbolOutcome : Type 0 where
  pub symbol : ℕ
  pub outcome : OutcomeText

pub record Order : Type 0 where
  pub id : ℕ
  pub client_order_id : ℕ
  pub broker_order_id : Option ℕ
  pub portfolio_id : ℕ
  pub strategy_id : Option ℕ
  pub symbol : ℕ
  pub side : OrderSide
  pub order_type : OrderType
  pub order_class : OrderClass
  pub time_in_force : TimeInForce
  pub status : StatusText
  pub qty : ℕ
  pub filled_qty : ℕ
  pub limit_price : Option ℕ
  pub stop_price : Option ℕ
  pub filled_avg_price : Option ℤ
  pub extended_hours : Bool
  pub parent_order_id : Option ℕ
  pub submitted_at : Option ℕ
  pub filled_at : Option ℕ
  pub canceled_at : Option ℕ
  pub raw : Option ℕ
  pub risk_approval : Option ApprovalPayload
  pub created_at : ℕ

-- The text of `fills.broker_fill_id`: the broker's execution id, the id of a synthesized span
-- `{tag}-{order_id}-{cumulative}`, or `noexec-{order_id}-{cumulative}`.
pub data FillKey : Type 0 where
  execution : ℕ → FillKey
  span : (tag order_id cumulative : ℕ) → FillKey
  noexec : (order_id cumulative : ℕ) → FillKey

pub record Fill : Type 0 where
  pub id : ℕ
  pub order_id : ℕ
  pub broker_fill_id : Option FillKey
  pub qty : ℕ
  pub price : ℤ
  pub occurred_at : ℕ

pub record Position : Type 0 where
  pub portfolio_id : ℕ
  pub symbol : ℕ
  pub qty : ℤ
  pub avg_entry_price : ℤ

pub record Lot : Type 0 where
  pub id : ℕ
  pub portfolio_id : ℕ
  pub strategy_id : Option ℕ
  pub symbol : ℕ
  pub side : OrderSide
  pub qty_orig : ℕ
  pub qty_open : ℕ
  pub entry_price : ℤ
  pub entry_fill_id : Option ℕ
  pub opened_at : ℕ
  pub created_at : ℕ
  pub closed_at : Option ℕ
  pub realized_pnl : ℤ

pub record LotClose : Type 0 where
  pub lot_id : ℕ
  pub order_id : Option ℕ
  pub fill_id : Option ℕ
  pub portfolio_id : ℕ
  pub strategy_id : Option ℕ
  pub symbol : ℕ
  pub qty : ℕ
  pub realized_pnl : ℤ
  pub closed_at : ℕ

-- The event type of an `event_log` row with the payload that the writers give it.
pub data Event : Type 0 where
  unapplied_remainder :
      (portfolio_id symbol : ℕ) (side : OrderSide) (qty : ℕ) (price : ℤ) (occurred_at : ℕ)
      (order_id fill_id superseded_anomaly_event_id : Option ℕ)
      → Event
  -- The companions of an anomaly, by the key of its row.
  remainder_resolved :
      (anomaly_event_id symbol applied_qty : ℕ) (realized_pnl : ℤ) (residual_qty : ℕ) → Event
  remainder_retry_failed : (anomaly_event_id symbol qty cycle : ℕ) → Event
  remainder_alert : (anomaly_event_id symbol qty cycles : ℕ) → Event
  failed_resurrected : (client_order_id broker_order_id : ℕ) (broker_status : OrderStatus) → Event
  snapshot_skipped :
      (plan : TransitionPlan) (local incoming : StatusText) (local_filled incoming_filled : ℕ)
      → Event
  orphan : (broker_order_id symbol : ℕ) (status : OrderStatus) (filled_qty : ℕ) → Event
  fill_missing_execution_id : (broker_order_id : ℕ) (key : FillKey) → Event
  terminal_fill_anomaly : (local_status : StatusText) (fill_qty : ℕ) (price : ℤ) → Event
  trade_update_error : (broker_order_id : ℕ) (client_order_id : Option ℕ) → Event
  gap_synthesized : (gap_qty : ℕ) (price : ℤ) (broker_cumulative : ℕ) → Event
  -- `order.failed_resurrected` with `via: reconciliation`, then the event types `reconcile.*`.
  reconcile_resurrected :
      (client_order_id broker_order_id : ℕ) (broker_status : OrderStatus) → Event
  reconcile_orphan :
      (broker_order_id : ℕ) (client_order_id : Option ℕ) (symbol : ℕ) (side : OrderSide)
      (status : OrderStatus) (qty : Option ℕ)
      → Event
  fill_synthesized : (qty : ℕ) (price : ℤ) (broker_cumulative : Option ℕ) → Event
  never_submitted : (client_order_id symbol age : ℕ) → Event
  missing_order :
      (client_order_id : ℕ) (broker_order_id : Option ℕ) (symbol : ℕ) (local_status : StatusText)
      → Event
  -- The event types of the risk stage, without the texts of reasons and errors.
  order_approved : (signal_id : ℕ) → Event
  order_rejected signal_error : (signal_id symbol : ℕ) (side : OrderSide) → Event
  flatten_approved flatten_rejected : (flatten_id : ℕ) → Event
  -- The event types of the execution handler.
  order_error : (client_order_id : ℕ) → Event
  suppressed_halted : (client_order_id symbol : ℕ) (side : OrderSide) (qty : ℤ) → Event
  order_submitted :
      (client_order_id : ℕ) (broker_order_id : Option ℕ) (status : StatusText)
      (plan : TransitionPlan) (legs_created : ℕ)
      → Event
  submit_ambiguous_resolved : (client_order_id broker_order_id : ℕ) (status : OrderStatus) → Event
  submit_ambiguous : (client_order_id : ℕ) → Event
  rejected_by_broker : (client_order_id : ℕ) (retryable_held_qty : Bool) → Event
  submit_failed : (client_order_id : ℕ) → Event
  flatten_duplicate_ignored flatten_coalesced flatten_error : (flatten_id : ℕ) → Event
  flatten_partial flatten_executed : (flatten_id : ℕ) (outcomes : List SymbolOutcome) → Event
  ledger_deficit_unresolved : (client_order_id filled_qty : ℕ) → Event
  reconcile_completed :
      (positions_synced positions_removed orders_updated orphans missing fills_synthesized : ℕ)
      (equity : ℤ)
      → Event

pub record EventLog : Type 0 where
  pub source : EventSource
  pub portfolio_id : Option ℕ
  pub strategy_id : Option ℕ
  pub order_id : Option ℕ
  pub event : Event

-- What a session sees: the rows of each table, the next identifier that `uuid4` or a sequence
-- hands out, and the instant that `now()` gives in this transaction.
pub record Db : Type 0 where
  pub orders : List Order
  pub fills : List Fill
  pub positions : List Position
  pub lots : List Lot
  pub lot_closes : List LotClose
  pub event_log : List EventLog
  pub next_id : ℕ
  pub now : ℕ

-- The attributes of an object that the session tracks are written to its row.
abbrev pub put_lot : Lot → List Lot → List Lot
put_lot l = update_where (λ x. x.id == l.id) (λ _. l)

abbrev pub put_order : Order → List Order → List Order
put_order o = update_where (λ x. x.id == o.id) (λ _. o)

-- The unique constraints of the table of orders: no two rows share a client id or a broker id.
abbrev shares_client_id : Order → Order → Bool
shares_client_id o other = o.client_order_id == other.client_order_id

abbrev shares_broker_id : Order → Order → Bool
shares_broker_id o other = elim o.broker_order_id [
  | none ↦ false
  | some b ↦ column_is other.broker_order_id b
]

unfoldable pub has_unique_ids : List Order → Bool
has_unique_ids [] = true
has_unique_ids (o ∷ os) =
    not (any (shares_client_id o) os) && not (any (shares_broker_id o) os) && has_unique_ids os

-- The flush of a session whose orders these are: an IntegrityError where a constraint is broken.
-- Ids are never cleared and rows never deleted, so a transaction that any flush refuses is one
-- that its last flush refuses.
abbrev pub flushed {ℓ} : {A : Type ℓ} → List Order → A → Option A
flushed orders a = if has_unique_ids orders then some a else none
