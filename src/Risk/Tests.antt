-- ===== src/Risk/Tests.antt =====
-- Runs of the risk engine, and the theorems at those inputs.
use roi_gen.Base.{◌≡◌, refl, true, false, none, some, [], ◌∷◌, pos, negsuc, ◌-ℤ◌, ◌*ℤ◌, ◌+ℤ◌, All}
use roi_gen.Models.Enums.{OrderSide, OrderType, TimeInForce, StrategyStatus}
use roi_gen.Models.Rows.{Lot}
use roi_gen.Risk.Request.{quantize_price}
use roi_gen.Risk.Controls.{SignalEvent, RiskState, RiskLimits, size_position}
use roi_gen.Risk.Engine.{RiskDecision, evaluate, mint_approval, evaluated_checks, order_request_of}
use roi_gen.Risk.Sizing.{Affordable, share_risk, budget, size_position-Affordable}
use roi_gen.Risk.Verdict.{Verdict, evaluate-Verdict}
use roi_gen.Risk.State.{RiskTables, BrokerAccount, MarketClock, member, load, in_symbol}
use roi_gen.Risk.Entry.{evaluate-NoPyramiding}

-- The defaults of backend/app/core/config.py.
abbrev pub limits : RiskLimits
limits = record {
  default_risk_pct = pos 750000;
  unproven_risk_pct = pos 250000;
  max_risk_pct = pos 2000000;
  daily_loss_limit_pct = pos 2000000;
  daily_loss_risk_multiple = pos 2500000;
  max_consecutive_losses = 4;
  drawdown_halve_pct = pos 10000000;
  drawdown_halt_pct = pos 15000000;
  margin_headroom_factor = pos 850000;
  flatten_buffer_minutes = 5;
  symbol_cooldown_seconds = 60;
}

-- Buy at 100.00 with a stop at 98.005.
abbrev pub signal : SignalEvent
signal = record {
  signal_id = 1;
  portfolio_id = 1;
  strategy_id = 7;
  symbol = 9;
  side = OrderSide.buy;
  entry_price = pos 100000000;
  stop_price = pos 98005000;
  take_profit_price = none;
  order_type = OrderType.limit;
  time_in_force = TimeInForce.day;
  extended_hours = false;
}

abbrev closed_lot : Lot
closed_lot = record {
  id = 3;
  portfolio_id = 1;
  strategy_id = some 7;
  symbol = 9;
  side = OrderSide.buy;
  qty_orig = 5;
  qty_open = 0;
  entry_price = pos 100;
  entry_fill_id = none;
  opened_at = 10;
  created_at = 10;
  closed_at = some 20;
  realized_pnl = negsuc 4;
}

abbrev tables : RiskTables
tables = record {
  strategies =
      record {
        id = 7;
        status = member StrategyStatus.paper;
        risk_per_trade_pct = none;
        max_positions = some 2;
      }
      ∷ [];
  snapshots = record { portfolio_id = 1; equity = pos 101000000000 } ∷ [];
  lots = closed_lot ∷ [];
  lot_closes = [];
}

-- 100,000 dollars of equity, in the middle of a session.
abbrev account : BrokerAccount
account = record {
  equity = pos 100000000000;
  last_equity = pos 100000000000;
  cash = pos 100000000000;
  buying_power = pos 200000000000;
  position_market_value = pos 0;
  trading_blocked = false;
  account_blocked = false;
}

abbrev clock : MarketClock
clock = record { timestamp = 1000000000; is_open = true; next_close = 9000000000 }

abbrev pub state : RiskState
state = load (λ t. 0) tables account clock 1 7 9 false

-- 250 dollars at risk and 1.995 dollars a share.
sized_qty_test : (size_position signal state limits).qty ≡ pos 125
unfolding ◌-ℤ◌ ◌*ℤ◌ ◌+ℤ◌
sized_qty_test = refl

losses_test : state.consecutive_losses ≡ 1
losses_test = refl

abbrev decision : RiskDecision
decision =
    let sizing = size_position signal state limits in
    let checks = evaluated_checks signal state limits sizing in
    record {
      checks = checks;
      approval = some (mint_approval signal state sizing 5 6 checks);
      order_request = some (order_request_of signal sizing.qty 5);
      reason = none;
    }

approved_test : evaluate limits signal state 5 6 ≡ some decision
unfolding ◌-ℤ◌ ◌*ℤ◌ ◌+ℤ◌
approved_test = refl

evaluate-Verdict_example : Verdict limits signal state (evaluate limits signal state 5 6)
evaluate-Verdict_example = evaluate-Verdict limits signal state 5 6

size_position-Affordable_example :
    Affordable (share_risk signal) (budget state limits) (size_position signal state limits).qty
unfolding ◌-ℤ◌ ◌*ℤ◌ ◌+ℤ◌
size_position-Affordable_example = size_position-Affordable signal state limits refl

evaluate-NoPyramiding_example : All (λ l. in_symbol 1 7 9 l ≡ true → l.qty_open ≡ 0) tables.lots
unfolding ◌-ℤ◌ ◌*ℤ◌ ◌+ℤ◌
evaluate-NoPyramiding_example =
    evaluate-NoPyramiding (λ t. 0) limits signal tables account clock false 5 6 decision
      (mint_approval signal state (size_position signal state limits) 5 6
        (evaluated_checks signal state limits (size_position signal state limits)))
      refl refl

rounded_up_test : quantize_price (pos 999960) ≡ pos 1000000
rounded_up_test = refl
