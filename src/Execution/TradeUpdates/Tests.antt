-- ===== src/Execution/TradeUpdates/Tests.antt =====
-- An order whose first partial fill was never delivered: the next event carries the cumulative
-- quantity. The theorems at that input.
use roi_gen.Base.{
  ℕ, ◌+◌, ◌/◌, ◌≤◌, ◌≡◌, refl, true, false, Option, none, some, List, [], ◌∷◌, ℤ, pos, pos_part,
  ◌+ℤ◌, ◌*ℤ◌, arith, All, if◌then◌else◌, ◌==◌,
}
use roi_gen.Models.Enums.{OrderStatus, OrderSide, OrderType, OrderClass, TimeInForce, known}
use roi_gen.Models.Rows.{Order, Db}
use roi_gen.Execution.State.{BrokerOrder}
use roi_gen.Execution.Synthesis.{AppliedLedger, filled_by, recorded, derived_price, span_price}
use roi_gen.Execution.Synthesis.Ledger.{LedgersAgree, synthesize_span_books}
use roi_gen.Execution.Synthesis.Price.{span_price_recovers}
use roi_gen.Execution.Synthesis
use roi_gen.Execution.Legs.{children, persist_bracket_legs}
use roi_gen.Execution.Legs.Adoption.{settled, persist_bracket_legs_idempotent}
use roi_gen.Execution.TradeUpdates.{TradeUpdate, FillEvent, record_execution}
use roi_gen.Execution.TradeUpdates.Gap.{Reaches}
use roi_gen.Execution.TradeUpdates.Execution.{cursor_of, record_execution_converges}
use roi_gen.Execution.TradeUpdates.Stream.{run, run-LedgersAgree}

abbrev pub floor_divide : ℤ → ℕ → ℤ
floor_divide x n = pos (pos_part x / n)

abbrev parent : Order
parent = record {
  id = 1;
  client_order_id = 2;
  broker_order_id = some 77;
  portfolio_id = 3;
  strategy_id = some 4;
  symbol = 9;
  side = OrderSide.buy;
  order_type = OrderType.market;
  order_class = OrderClass.bracket;
  time_in_force = TimeInForce.day;
  status = known OrderStatus.accepted;
  qty = 10;
  filled_qty = 0;
  limit_price = none;
  stop_price = some 90;
  filled_avg_price = none;
  extended_hours = false;
  parent_order_id = none;
  submitted_at = none;
  filled_at = none;
  canceled_at = none;
  raw = none;
  risk_approval = none;
  created_at = 0;
}

abbrev pub before_fill : Db
before_fill = record {
  orders = parent ∷ [];
  fills = [];
  positions = [];
  lots = [];
  lot_closes = [];
  event_log = [];
  next_id = 100;
  now = 5;
}

abbrev at_broker : ℕ → OrderStatus → ℕ → BrokerOrder
at_broker id status filled = record {
  broker_order_id = id;
  client_order_id = some (id + 1000);
  symbol = 9;
  side = OrderSide.buy;
  order_type = OrderType.market;
  order_class = OrderClass.bracket;
  time_in_force = TimeInForce.day;
  status = status;
  qty = some 10;
  filled_qty = filled;
  limit_price = none;
  stop_price = none;
  filled_avg_price = some (pos 100);
  extended_hours = false;
  submitted_at = none;
  filled_at = none;
  canceled_at = none;
  raw = none;
}

abbrev pub last_fill : TradeUpdate
last_fill = record {
  order = at_broker 77 OrderStatus.filled 10;
  execution_id = some 500;
  price = some (pos 100);
  qty = some 4;
  position_qty = none;
  timestamp = 6;
}

abbrev legs : List BrokerOrder
legs = at_broker 78 OrderStatus.held 0 ∷ at_broker 79 OrderStatus.held 0 ∷ []

abbrev pub fetch_legs : ℕ → Option (Option (List BrokerOrder))
fetch_legs b = some (some legs)

pub before_fill-LedgersAgree : LedgersAgree before_fill
before_fill-LedgersAgree = record {
  ledger = record { lots_valid = tt; keys = tt; closes_numbered = tt };
  fills_numbered = tt;
  agreed = tt;
  unreferenced = λ n h. refl;
  keys_within = tt;
}

record_execution_converges_example :
    (r : Option FillEvent × Db) × (record_execution floor_divide parent last_fill before_fill
      ≡ some r)
    × Reaches parent [] (cursor_of floor_divide parent false last_fill []) r.1
record_execution_converges_example =
    record_execution_converges floor_divide parent last_fill before_fill before_fill-LedgersAgree

abbrev stream : List TradeUpdate
stream = last_fill ∷ last_fill ∷ []

run-LedgersAgree_example :
    LedgersAgree (run fetch_legs floor_divide stream before_fill)
    × ((p : ℕ) → 0 ≤ filled_by p (run fetch_legs floor_divide stream before_fill).fills)
run-LedgersAgree_example =
    run-LedgersAgree fetch_legs floor_divide stream before_fill before_fill-LedgersAgree

synthesize_span_books_example :
    let db' = Synthesis.synthesize_span floor_divide parent 6 (pos 100) 6 0 true before_fill in
    LedgersAgree db' × ((p : ℕ) → filled_by p db'.fills ≡ 0 + (if 1 == p then 6 else 0))
synthesize_span_books_example =
    synthesize_span_books floor_divide parent 6 (pos 100) 6 0 before_fill true (omega arith)
      before_fill-LedgersAgree

abbrev seen_part : AppliedLedger
seen_part = record { qty = 4; notional = pos 400 }

span_price_recovers_example :
    span_price floor_divide 10 (some (pos 103)) seen_part 6 ≡ some (pos 105)
unfolding ◌+ℤ◌ ◌*ℤ◌
span_price_recovers_example =
    span_price_recovers floor_divide 10 (pos 103) seen_part 6 (omega arith) (pos 105) (omega arith)
      (omega arith) refl refl

persist_bracket_legs_idempotent_example :
    let db' = (persist_bracket_legs parent legs before_fill).0 in
    All (λ leg. settled (children 1 db'.orders) leg ≡ true) legs
    × (persist_bracket_legs parent legs db' ≡ (db', 0))
persist_bracket_legs_idempotent_example = persist_bracket_legs_idempotent parent legs before_fill
