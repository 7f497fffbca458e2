-- ===== src/Execution/State/Tests.antt =====
-- A late snapshot against a filled row and against an open one, and the theorems at those inputs.
use roi_gen.Base.{ℕ, ◌≡◌, refl, false, none, some, List, [], ◌∷◌}
use roi_gen.Models.Enums.{OrderStatus, OrderSide, OrderType, OrderClass, TimeInForce, known, stale}
use roi_gen.Models.Rows.{Order}
use roi_gen.Execution.State.{BrokerOrder, is_absorbing, apply_snapshot}
use roi_gen.Execution.State.Laws.{replay, replay-absorbed}

abbrev row : OrderStatus → ℕ → Order
row status filled = record {
  id = 1;
  client_order_id = 2;
  broker_order_id = none;
  portfolio_id = 3;
  strategy_id = some 4;
  symbol = 9;
  side = OrderSide.buy;
  order_type = OrderType.market;
  order_class = OrderClass.bracket;
  time_in_force = TimeInForce.day;
  status = known status;
  qty = 10;
  filled_qty = filled;
  limit_price = none;
  stop_price = none;
  filled_avg_price = none;
  extended_hours = false;
  parent_order_id = none;
  submitted_at = none;
  filled_at = none;
  canceled_at = none;
  raw = none;
  risk_approval = none;
  created_at = 0;
}

abbrev seen : OrderStatus → ℕ → BrokerOrder
seen status filled = record {
  broker_order_id = 77;
  client_order_id = some 2;
  symbol = 9;
  side = OrderSide.buy;
  order_type = OrderType.market;
  order_class = OrderClass.bracket;
  time_in_force = TimeInForce.day;
  status = status;
  qty = some 10;
  filled_qty = filled;
  limit_price = none;
  stop_price = none;
  filled_avg_price = none;
  extended_hours = false;
  submitted_at = none;
  filled_at = none;
  canceled_at = none;
  raw = none;
}

stale_runs :
    (apply_snapshot (row OrderStatus.partially_filled 6) (seen OrderStatus.accepted 4)).1 ≡ stale
unfolding apply_snapshot
stale_runs = refl

abbrev late : List BrokerOrder
late = seen OrderStatus.accepted 4 ∷ seen OrderStatus.canceled 10 ∷ []

replay-absorbed_example :
    ((replay (row OrderStatus.filled 10) late).status ≡ known OrderStatus.filled)
    × ((replay (row OrderStatus.filled 10) late).filled_qty ≡ 10)
    × ((replay (row OrderStatus.filled 10) late).filled_avg_price ≡ none)
unfolding is_absorbing
replay-absorbed_example = replay-absorbed (row OrderStatus.filled 10) late refl
