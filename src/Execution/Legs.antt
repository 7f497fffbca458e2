-- ===== src/Execution/Legs.antt =====
-- Bracket legs as child order rows: `persist_bracket_legs` of
-- backend/app/engine/execution/apply.py.
use roi_gen.Base.{
  ℕ, ◌+◌, Bool, true, false, Option, none, some, List, [], ◌∷◌, ◌==◌, if◌then◌else◌, column_is, any,
  select,
}
use roi_gen.Models.Enums.{StatusText, known}
use roi_gen.Models.Rows.{Order, Db}
use roi_gen.Execution.State.{BrokerOrder}
pub mod Adoption

abbrev pub children : ℕ → List Order → List Order
children parent = select (λ o. column_is o.parent_order_id parent)

-- `leg.broker_order_id in known_broker_ids`, and the same for client ids.
abbrev pub knows_broker_id : List Order → ℕ → Bool
knows_broker_id existing b = any (λ o. column_is o.broker_order_id b) existing

abbrev pub knows_client_id : List Order → ℕ → Bool
knows_client_id existing c = any (λ o. o.client_order_id == c) existing

abbrev pub or_default : Option ℕ → ℕ → ℕ
or_default none d = d
or_default (some n) d = n

abbrev pub leg_row : Order → BrokerOrder → (client id now : ℕ) → Order
leg_row parent leg client id now = record {
  id = id;
  client_order_id = client;
  broker_order_id = some leg.broker_order_id;
  portfolio_id = parent.portfolio_id;
  strategy_id = parent.strategy_id;
  symbol = leg.symbol;
  side = leg.side;
  order_type = leg.order_type;
  order_class = leg.order_class;
  time_in_force = leg.time_in_force;
  status = known leg.status;
  qty = or_default leg.qty parent.qty;
  filled_qty = leg.filled_qty;
  limit_price = leg.limit_price;
  stop_price = leg.stop_price;
  filled_avg_price = leg.filled_avg_price;
  extended_hours = leg.extended_hours;
  parent_order_id = some parent.id;
  submitted_at = leg.submitted_at;
  filled_at = none;
  canceled_at = none;
  raw = leg.raw;
  risk_approval = none;
  created_at = now;
}

abbrev pub add_order : Order → Db → Db
add_order o db = record db { orders = o ∷ db.orders; next_id = db.next_id + 1 }

-- `session.add`: the unique constraints are checked when the session is flushed (`flushed`).
-- One round of the loop, by the client id that the broker gave the leg.
unfoldable pub persist_leg : Order → List Order → BrokerOrder → Option ℕ → Db → ℕ → Db × ℕ
persist_leg parent existing leg client db created =
    if knows_broker_id existing leg.broker_order_id then (db, created) else elim client [
      | none ↦ (db, created)
      | some c ↦
          if knows_client_id existing c
          then (db, created)
          else (add_order (leg_row parent leg c db.next_id db.now) db, created + 1)
    ]

unfoldable pub persist_legs : Order → List Order → List BrokerOrder → Db → ℕ → Db × ℕ
unfolding persist_leg
persist_legs parent existing [] db created = (db, created)
persist_legs parent existing (leg ∷ legs) db created =
    let (db', created') = persist_leg parent existing leg leg.client_order_id db created in
    persist_legs parent existing legs db' created'

-- The rows that exist are read once, before the loop.
unfoldable pub persist_bracket_legs : Order → List BrokerOrder → Db → Db × ℕ
unfolding persist_legs
persist_bracket_legs parent legs db = persist_legs parent (children parent.id db.orders) legs db 0
