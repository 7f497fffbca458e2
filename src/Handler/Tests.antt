-- ===== src/Handler/Tests.antt =====
-- An order whose submission times out, a flatten with a leg to cancel, and the theorems there.
use roi_gen.Base.{◌≡◌, refl, true, false, none, some, List, [], ◌∷◌, pos, negsuc, length}
use roi_gen.Models.Enums.{OrderStatus, OrderSide, OrderType, OrderClass, TimeInForce}
use roi_gen.Models.Rows.{Order, ApprovalPayload, Db}
use roi_gen.Risk.Request.{OrderRequest}
use roi_gen.Risk.Engine.{RiskApproval, FlattenSource, FlattenApproval}
use roi_gen.Handler.Submit.{
  World, SubmitAnswer, Replies, SubmitIdentity, pending_row, submit_and_apply,
}
use roi_gen.Handler.Submit.Settles.{Settled, submit_and_apply-Settled}
use roi_gen.Handler.Entry.{OrderEvent, identity_of, on_order}
use roi_gen.Handler.Entry.Guarded.{Guarded, on_order-Guarded}
use roi_gen.Handler.Flatten.{WorkingOrder, Holding, FlattenReplies, execute_flatten}
use roi_gen.Handler.Flatten.Reduces.{Careful, execute_flatten-Careful}

abbrev pub request : OrderRequest
request = record {
  client_order_id = 21;
  symbol = 9;
  side = OrderSide.buy;
  order_type = OrderType.market;
  time_in_force = TimeInForce.day;
  order_class = OrderClass.simple;
  qty = some (pos 3);
  notional = none;
  limit_price = none;
  stop_price = none;
  trail_percent = none;
  extended_hours = false;
  position_intent = none;
  take_profit_limit_price = none;
  stop_loss_stop_price = none;
  stop_loss_limit_price = none;
}

abbrev risk_approval : RiskApproval
risk_approval = record {
  signal_id = 5;
  portfolio_id = 3;
  strategy_id = 4;
  symbol = 9;
  side = OrderSide.buy;
  qty = pos 3;
  entry_price = pos 100;
  stop_price = pos 90;
  take_profit_price = none;
  risk_pct = pos 1;
  risk_amount = pos 30;
  equity = pos 1000;
  client_order_id = 21;
  approved_at = 1;
  checks = [];
}

abbrev empty : Db
empty = record {
  orders = [];
  fills = [];
  positions = [];
  lots = [];
  lot_closes = [];
  event_log = [];
  next_id = 100;
  now = 5;
}

abbrev pub idle : World
idle = record { db = empty; submissions = []; canceled = [] }

abbrev pub timeout : Replies
timeout = record {
  submit = SubmitAnswer.ambiguous_state;
  lookups = some none ∷ some none ∷ [];
  nested = none;
  meanwhile = λ db. db;
}

abbrev pub approved : OrderEvent
approved = record { order_request = request; approval = some risk_approval }

-- The order was submitted once, and its row is still pending.
left_pending : length (on_order false approved timeout idle).submissions ≡ 1
unfolding on_order submit_and_apply
left_pending = refl

on_order-Guarded_example : Guarded approved false idle (on_order false approved timeout idle)
on_order-Guarded_example = on_order-Guarded false approved timeout idle

abbrev pub identity : SubmitIdentity
identity = identity_of request risk_approval

abbrev pub row : Order
row = pending_row request 3 1000000000 identity (ApprovalPayload.risk 5) empty

abbrev pub recorded : World
recorded = record {
  db = record empty { orders = row ∷ []; next_id = 101 };
  submissions = [];
  canceled = [];
}

submit_and_apply-Settled_example :
    let w' = (submit_and_apply 100 request identity timeout recorded).world in
    Settled timeout row SubmitAnswer.ambiguous_state (row ∷ []) w'.db.orders
    × (w'.submissions ≡ record { request = request; committed = recorded.db } ∷ [])
submit_and_apply-Settled_example =
    submit_and_apply-Settled 100 request identity timeout recorded row refl

abbrev flatten_approval : FlattenApproval
flatten_approval = record {
  flatten_id = 7;
  portfolio_id = 3;
  reason = 65 ∷ [];
  source = FlattenSource.kill_switch;
  command_seq = none;
  approved_at = 1;
  checks = [];
}

abbrev stop_leg : WorkingOrder
stop_leg = record { broker_order_id = 77; client_order_id = some (66 ∷ []); symbol = 9 }

abbrev holdings : List Holding
holdings = record { symbol = 9; qty = negsuc 4 } ∷ record { symbol = 8; qty = pos 0 } ∷ []

abbrev flatten_replies : FlattenReplies
flatten_replies = record {
  open_orders = some (stop_leg ∷ []);
  cancels = λ id. true;
  statuses = (λ id. some (some OrderStatus.canceled)) ∷ [];
  positions = some holdings;
  submits = λ symbol. timeout;
}

execute_flatten-Careful_example :
    Careful length
      (λ id. id ∷ [])
      (λ symbol. symbol ∷ [])
      flatten_approval
      (stop_leg ∷ [])
      holdings
      idle
      (execute_flatten length
        (λ id. id ∷ [])
        (λ symbol. symbol ∷ [])
        flatten_approval
        flatten_replies
        idle)
execute_flatten-Careful_example =
    execute_flatten-Careful length (λ id. id ∷ []) (λ symbol. symbol ∷ []) flatten_approval
      flatten_replies (stop_leg ∷ []) holdings idle refl refl
