-- ===== src/Reconcile/Tests.antt =====
-- A portfolio with an order whose fill was missed while the process was down, and the theorems there.
use roi_gen.Base.{ℕ, ◌/◌, ◌≡◌, ◌≢◌, true, false, none, some, List, [], ◌∷◌, ℤ, pos, pos_part, find}
use roi_gen.Models.Enums.{OrderStatus, OrderSide, OrderType, OrderClass, TimeInForce, known}
use roi_gen.Models.Rows.{Order, Position, Db}
use roi_gen.Execution.State.{BrokerOrder}
use roi_gen.Execution.Positions.{at_key}
use roi_gen.Execution.TradeUpdates.{TradeUpdate}
use roi_gen.Risk.State.{BrokerAccount}
use roi_gen.Reconcile.Adopt.{OrderTree, Broker, handle_unknown}
use roi_gen.Reconcile.Positions.{PositionReport, is_suspect, reconcile_positions}
use roi_gen.Reconcile.Positions.Mirror.{reconcile_positions-safe}
use roi_gen.Reconcile.Grows.{Grows}
use roi_gen.Reconcile.Portfolio.Outcome.{Careful, handle_unknown-Careful}

abbrev floor_divide : ℤ → ℕ → ℤ
floor_divide x n = pos (pos_part x / n)

abbrev local_order : Order
local_order = record {
  id = 1;
  client_order_id = 2;
  broker_order_id = some 77;
  portfolio_id = 3;
  strategy_id = some 4;
  symbol = 9;
  side = OrderSide.buy;
  order_type = OrderType.market;
  order_class = OrderClass.simple;
  time_in_force = TimeInForce.day;
  status = known OrderStatus.accepted;
  qty = 10;
  filled_qty = 0;
  limit_price = none;
  stop_price = none;
  filled_avg_price = none;
  extended_hours = false;
  parent_order_id = none;
  submitted_at = none;
  filled_at = none;
  canceled_at = none;
  raw = none;
  risk_approval = none;
  created_at = 1;
}

abbrev old_position : Position
old_position = record { portfolio_id = 3; symbol = 8; qty = pos 5; avg_entry_price = pos 20 }

abbrev after_crash : Db
after_crash = record {
  orders = local_order ∷ [];
  fills = [];
  positions = old_position ∷ [];
  lots = [];
  lot_closes = [];
  event_log = [];
  next_id = 100;
  now = 5;
}

abbrev half_filled : BrokerOrder
half_filled = record {
  broker_order_id = 77;
  client_order_id = some 2;
  symbol = 9;
  side = OrderSide.buy;
  order_type = OrderType.market;
  order_class = OrderClass.simple;
  time_in_force = TimeInForce.day;
  status = OrderStatus.partially_filled;
  qty = some 10;
  filled_qty = 6;
  limit_price = none;
  stop_price = none;
  filled_avg_price = some (pos 100);
  extended_hours = false;
  submitted_at = none;
  filled_at = none;
  canceled_at = none;
  raw = none;
}

abbrev late_update : TradeUpdate
late_update = record {
  order = half_filled;
  execution_id = some 500;
  price = some (pos 100);
  qty = some 6;
  position_qty = none;
  timestamp = 6;
}

abbrev knows_none : Broker
knows_none = record { get_order = λ b. some none; get_order_by_client_id = λ c. some none }

abbrev open_orders : List OrderTree
open_orders = record { order = half_filled; legs = [] } ∷ []

abbrev reports : List PositionReport
reports = record { symbol = 9; qty = pos 6; avg_entry_price = pos 100 } ∷ []

abbrev account : BrokerAccount
account = record {
  equity = pos 1000;
  last_equity = pos 1000;
  cash = pos 400;
  buying_power = pos 400;
  position_market_value = pos 600;
  trading_blocked = false;
  account_blocked = false;
}

reconcile_positions-safe_example :
    ((q s : ℕ)
      → 3 ≢ q
      → find (at_key q s) (reconcile_positions 3 (pos 600) [] (old_position ∷ [])).1
        ≡ find (at_key q s) (old_position ∷ []))
    × (is_suspect 3 (pos 600) [] (old_position ∷ []) ≡ true
        → reconcile_positions 3 (pos 600) [] (old_position ∷ []) ≡ ((0, 0), old_position ∷ []))
reconcile_positions-safe_example = reconcile_positions-safe 3 (pos 600) [] (old_position ∷ [])

handle_unknown-Careful_example :
    Careful local_order 200000000 after_crash (handle_unknown 3 local_order 200000000 after_crash)
handle_unknown-Careful_example = handle_unknown-Careful 3 local_order 200000000 after_crash
