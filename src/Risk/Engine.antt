-- ===== src/Risk/Engine.antt =====
-- The risk engine, backend/app/engine/risk/engine.py, and the approvals of risk/approval.py.
use roi_gen.Base.{
  ℕ, Bool, true, false, not, ◌&&◌, Option, none, some, List, [], ◌∷◌, map, ℤ, ◌==◌, select,
  if◌then◌else◌,
}
use roi_gen.Models.Enums.{OrderSide, OrderType, OrderClass}
use roi_gen.Models.Commands.{Text}
use roi_gen.Risk.Request.{OrderRequest, validate, quantize_price}
use roi_gen.Risk.Controls.{
  SignalEvent, RiskState, RiskLimits, ControlName, ControlCheck, Sizing, flatten_scope,
  flatten_provenance, size_position, check_account_tradeable, check_entry_order_type,
  check_time_in_force, check_extended_hours, check_session_open, check_daily_loss,
  check_consecutive_losses, check_drawdown_halt, check_max_positions, check_no_pyramiding,
  check_cooldown, check_margin_headroom, check_volatility_halt,
}

pub record RiskApproval : Type 0 where
  pub signal_id : ℕ
  pub portfolio_id : ℕ
  pub strategy_id : ℕ
  pub symbol : ℕ
  pub side : OrderSide
  pub qty : ℤ
  pub entry_price : ℤ
  pub stop_price : ℤ
  pub take_profit_price : Option ℤ
  pub risk_pct : ℤ
  pub risk_amount : ℤ
  pub equity : ℤ
  pub client_order_id : ℕ
  pub approved_at : ℕ
  pub checks : List ControlCheck

-- The reason of a rejection names the controls that failed.
pub record RiskDecision : Type 0 where
  pub checks : List ControlCheck
  pub approval : Option RiskApproval
  pub order_request : Option OrderRequest
  pub reason : Option (List ControlName)

abbrev pub is_failed_check : ControlCheck → Bool
is_failed_check check = not check.passed

abbrev pub evaluated_checks : SignalEvent → RiskState → RiskLimits → Sizing → List ControlCheck
evaluated_checks signal state limits sizing =
    check_account_tradeable state
    ∷ check_entry_order_type signal
    ∷ check_time_in_force signal
    ∷ check_extended_hours signal
    ∷ check_session_open state limits
    ∷ sizing.check
    ∷ check_daily_loss state limits sizing.risk_amount
    ∷ check_consecutive_losses state limits
    ∷ check_drawdown_halt state limits
    ∷ check_max_positions state
    ∷ check_no_pyramiding state
    ∷ check_cooldown state limits
    ∷ check_margin_headroom state limits sizing.qty signal.entry_price
    ∷ check_volatility_halt
    ∷ []

abbrev pub is_limit : OrderType → Bool
is_limit OrderType.limit = true
is_limit _ = false

abbrev pub quantized : Option ℤ → Option ℤ
quantized none = none
quantized (some price) = some (quantize_price price)

abbrev pub order_request_of : SignalEvent → ℤ → ℕ → OrderRequest
order_request_of signal qty client_order_id = record {
  client_order_id = client_order_id;
  symbol = signal.symbol;
  side = signal.side;
  order_type = signal.order_type;
  time_in_force = signal.time_in_force;
  order_class = OrderClass.bracket;
  qty = some qty;
  notional = none;
  limit_price =
      if is_limit signal.order_type then some (quantize_price signal.entry_price) else none;
  stop_price = none;
  trail_percent = none;
  extended_hours = false;
  position_intent = none;
  take_profit_limit_price = quantized signal.take_profit_price;
  stop_loss_stop_price = some (quantize_price signal.stop_price);
  stop_loss_limit_price = none;
}

-- None where the request's validation raises.
abbrev pub build_order_request : SignalEvent → ℤ → ℕ → Option OrderRequest
build_order_request signal qty client_order_id =
    validate (order_request_of signal qty client_order_id)

abbrev pub mint_approval :
    SignalEvent → RiskState → Sizing → ℕ → ℕ → List ControlCheck → RiskApproval
mint_approval signal state sizing client_order_id now checks = record {
  signal_id = signal.signal_id;
  portfolio_id = signal.portfolio_id;
  strategy_id = signal.strategy_id;
  symbol = signal.symbol;
  side = signal.side;
  qty = sizing.qty;
  entry_price = signal.entry_price;
  stop_price = signal.stop_price;
  take_profit_price = signal.take_profit_price;
  risk_pct = sizing.risk_pct;
  risk_amount = sizing.risk_amount;
  equity = state.equity;
  client_order_id = client_order_id;
  approved_at = now;
  checks = checks;
}

-- `evaluate` once the request is built.
abbrev pub approved_with :
    SignalEvent
    → RiskState
    → Sizing
    → ℕ
    → ℕ
    → List ControlCheck
    → Option OrderRequest
    → Option RiskDecision
approved_with signal state sizing client_order_id now checks none = none
approved_with signal state sizing client_order_id now checks (some request) = some (record {
  checks = checks;
  approval = some (mint_approval signal state sizing client_order_id now checks);
  order_request = some request;
  reason = none;
})

-- `evaluate` once the failed checks are known.
abbrev pub decide :
    SignalEvent
    → RiskState
    → Sizing
    → ℕ
    → ℕ
    → List ControlCheck
    → List ControlCheck
    → Option RiskDecision
decide signal state sizing client_order_id now checks [] =
    approved_with signal state sizing client_order_id now checks
      (build_order_request signal sizing.qty client_order_id)
decide signal state sizing client_order_id now checks (check ∷ failed) = some (record {
  checks = checks;
  approval = none;
  order_request = none;
  reason = some (map ControlCheck.name (check ∷ failed));
})

-- The client order id is the one that `uuid4` makes and `now` is the clock; none where building
-- the request raises.
abbrev pub evaluate : RiskLimits → SignalEvent → RiskState → ℕ → ℕ → Option RiskDecision
evaluate limits signal state client_order_id now =
    let sizing = size_position signal state limits in
    let checks = evaluated_checks signal state limits sizing in
    decide signal state sizing client_order_id now checks (select is_failed_check checks)

-- Provenance tags: the three of `_FLATTEN_SOURCES`, or any other text.
pub data FlattenSource : Type 0 where
  kill_switch scheduled_close next_open : FlattenSource
  other_source : Text → FlattenSource

pub record FlattenEvent : Type 0 where
  pub flatten_id : ℕ
  pub portfolio_id : ℕ
  pub reason : Text
  pub source : FlattenSource
  pub command_seq : Option ℕ

pub record FlattenApproval : Type 0 where
  pub flatten_id : ℕ
  pub portfolio_id : ℕ
  pub reason : Text
  pub source : FlattenSource
  pub command_seq : Option ℕ
  pub approved_at : ℕ
  pub checks : List ControlCheck

pub record FlattenDecision : Type 0 where
  pub checks : List ControlCheck
  pub approval : Option FlattenApproval
  pub reason : Option (List ControlName)

abbrev pub is_flatten_source : FlattenSource → Bool
is_flatten_source (other_source text) = false
is_flatten_source _ = true

abbrev pub is_stated : Text → Bool
is_stated [] = false
is_stated (c ∷ text) = true

abbrev pub flatten_checks : FlattenEvent → List ControlCheck
flatten_checks event =
    record { name = flatten_scope; passed = not (event.portfolio_id == 0) }
    ∷ record {
      name = flatten_provenance;
      passed = is_flatten_source event.source && is_stated event.reason;
    }
    ∷ []

abbrev pub decide_flatten :
    FlattenEvent → ℕ → List ControlCheck → List ControlCheck → FlattenDecision
decide_flatten event now checks [] = record {
  checks = checks;
  approval = some (record {
    flatten_id = event.flatten_id;
    portfolio_id = event.portfolio_id;
    reason = event.reason;
    source = event.source;
    command_seq = event.command_seq;
    approved_at = now;
    checks = checks;
  });
  reason = none;
}
decide_flatten event now checks (check ∷ failed) = record {
  checks = checks;
  approval = none;
  reason = some (map ControlCheck.name (check ∷ failed));
}

abbrev pub authorize_flatten : FlattenEvent → ℕ → FlattenDecision
authorize_flatten event now =
    let checks = flatten_checks event in
    decide_flatten event now checks (select is_failed_check checks)
