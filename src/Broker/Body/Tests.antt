-- ===== src/Broker/Body/Tests.antt =====
-- The body of a bracket order that opens a position.
use roi_gen.Base.{◌≡◌, some, pos}
use roi_gen.Models.Enums.{OrderType, OrderClass}
use roi_gen.Risk.Request.{OrderRequest, PositionIntent}
use roi_gen.Handler.Tests.{request}
use roi_gen.Broker.Body.{build_order_body}
use roi_gen.Broker.Body.ReadBack.{read_body, read_body-build_order_body}

abbrev bracket : OrderRequest
bracket = record request {
  order_type = OrderType.limit;
  order_class = OrderClass.bracket;
  limit_price = some (pos 100);
  position_intent = some PositionIntent.buy_to_open;
  take_profit_limit_price = some (pos 120);
  stop_loss_stop_price = some (pos 90);
}

read_body-build_order_body_example : read_body (build_order_body bracket) ≡ some bracket
read_body-build_order_body_example = read_body-build_order_body bracket
