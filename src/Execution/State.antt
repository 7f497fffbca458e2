-- ===== src/Execution/State.antt =====
-- The order state machine, backend/app/engine/execution/state.py, and the copy of a broker
-- snapshot onto an order row, `apply_identity` and `apply_snapshot` of apply.py.
use roi_gen.Base.{
  ℕ, ◌≤◌, ◌≡◌, ◌≢◌, refl, Bool, true, false, Option, none, some, List, [], ◌∷◌, ℤ, arith, ltb,
  if◌then◌else◌, is_some,
}
use roi_gen.Models.Enums.{
  OrderStatus, OrderType, OrderSide, OrderClass, TimeInForce, StatusText, known, unknown,
  TransitionPlan, apply, stale, terminal_conflict,
}
use roi_gen.Models.Rows.{Order}
pub mod Laws
mod Tests

-- Membership in `ABSORBING_STATUSES`.
unfoldable pub absorbing : OrderStatus → Bool
absorbing OrderStatus.filled = true
absorbing OrderStatus.canceled = true
absorbing OrderStatus.expired = true
absorbing OrderStatus.rejected = true
absorbing OrderStatus.replaced = true
absorbing OrderStatus.failed = true
absorbing _ = false

-- An unknown text is not absorbing.
unfoldable pub is_absorbing : StatusText → Bool
unfolding absorbing
is_absorbing (known s) = absorbing s
is_absorbing (unknown n) = false

pub plan_transition : StatusText → ℕ → OrderStatus → ℕ → TransitionPlan
unfolding is_absorbing
plan_transition local_status local_filled_qty incoming_status incoming_filled_qty =
    if is_absorbing local_status
    then terminal_conflict
    else if ltb incoming_filled_qty local_filled_qty
    then stale
    else apply

-- The read model of an order at the broker, backend/app/brokers/dto.py, without its legs.
pub record BrokerOrder : Type 0 where
  pub broker_order_id : ℕ
  pub client_order_id : Option ℕ
  pub symbol : ℕ
  pub side : OrderSide
  pub order_type : OrderType
  pub order_class : OrderClass
  pub time_in_force : TimeInForce
  pub status : OrderStatus
  pub qty : Option ℕ
  pub filled_qty : ℕ
  pub limit_price : Option ℕ
  pub stop_price : Option ℕ
  pub filled_avg_price : Option ℤ
  pub extended_hours : Bool
  pub submitted_at : Option ℕ
  pub filled_at : Option ℕ
  pub canceled_at : Option ℕ
  pub raw : Option ℕ

-- `if new is not None: field = new`
abbrev pub or_keep {ℓ} : {A : Type ℓ} → Option A → Option A → Option A
or_keep none old = old
or_keep (some new) old = some new

apply_identity : Order → BrokerOrder → Order
apply_identity local broker = record local {
  broker_order_id =
      if is_some local.broker_order_id then local.broker_order_id else some broker.broker_order_id;
  submitted_at = or_keep broker.submitted_at local.submitted_at;
  filled_at = or_keep broker.filled_at local.filled_at;
  canceled_at = or_keep broker.canceled_at local.canceled_at;
  raw = or_keep broker.raw local.raw;
}

adopt : TransitionPlan → Order → BrokerOrder → Order
adopt apply local broker = record local {
  status = known broker.status;
  filled_qty = broker.filled_qty;
  filled_avg_price = or_keep broker.filled_avg_price local.filled_avg_price;
}
adopt stale local broker = local
adopt terminal_conflict local broker = local

pub apply_snapshot : Order → BrokerOrder → Order × TransitionPlan
unfolding apply_identity plan_transition adopt
apply_snapshot local broker =
    let plan = plan_transition local.status local.filled_qty broker.status broker.filled_qty in
    (adopt plan (apply_identity local broker) broker, plan)
