-- ===== src/Risk/Controls.antt =====
-- The risk controls, backend/app/engine/risk/controls.py, over the state of risk/state.py.
-- Prices and money are in units of 10^-6 dollars, percentages and factors in units of 10^-6.
use roi_gen.Base.{
  ℕ, suc, ◌+◌, ◌*◌, ◌/◌, Bool, true, false, not, ◌&&◌, ◌||◌, Option, none, some, ℤ, pos, negsuc,
  sub_ℕ, ◌-ℤ◌, ◌+ℤ◌, ◌*ℤ◌, abs, ltb_ℤ, leb_ℤ, ltb, leb, ◌==◌, if◌then◌else◌,
}
use roi_gen.Models.Enums.{OrderSide, OrderType, TimeInForce}

pub record SignalEvent : Type 0 where
  pub signal_id : ℕ
  pub portfolio_id : ℕ
  pub strategy_id : ℕ
  pub symbol : ℕ
  pub side : OrderSide
  pub entry_price : ℤ
  pub stop_price : ℤ
  pub take_profit_price : Option ℤ
  pub order_type : OrderType
  pub time_in_force : TimeInForce
  pub extended_hours : Bool

-- Instants are in microseconds; realized profit is in units of 10^-15 dollars.
pub record RiskState : Type 0 where
  pub portfolio_id : ℕ
  pub strategy_id : ℕ
  pub symbol : ℕ
  pub now : ℕ
  pub market_open : Bool
  pub next_close : ℕ
  pub equity : ℤ
  pub last_equity : ℤ
  pub cash : ℤ
  pub buying_power : ℤ
  pub position_market_value : ℤ
  pub trading_blocked : Bool
  pub account_blocked : Bool
  pub strategy_proven : Bool
  pub strategy_risk_pct : Option ℤ
  pub strategy_max_positions : Option ℕ
  pub strategy_open_qty : ℕ
  pub open_positions_count : ℕ
  pub day_realized_pnl_strategy : ℤ
  pub consecutive_losses : ℕ
  pub peak_equity : ℤ
  pub last_entry_at : Option ℕ
  pub trading_halted : Bool

pub record RiskLimits : Type 0 where
  pub default_risk_pct : ℤ
  pub unproven_risk_pct : ℤ
  pub max_risk_pct : ℤ
  pub daily_loss_limit_pct : ℤ
  pub daily_loss_risk_multiple : ℤ
  pub max_consecutive_losses : ℕ
  pub drawdown_halve_pct : ℤ
  pub drawdown_halt_pct : ℤ
  pub margin_headroom_factor : ℤ
  pub flatten_buffer_minutes : ℕ
  pub symbol_cooldown_seconds : ℕ

pub data ControlName : Type 0 where
  account_tradeable entry_order_type time_in_force extended_hours session_open : ControlName
  sizing daily_loss consecutive_losses drawdown_halt max_positions no_pyramiding : ControlName
  cooldown margin_headroom volatility_halt : ControlName
  flatten_scope flatten_provenance : ControlName

-- The verdict of a control, without the texts that the audit shows beside it.
pub record ControlCheck : Type 0 where
  pub name : ControlName
  pub passed : Bool

pub record Sizing : Type 0 where
  pub qty : ℤ
  pub risk_pct : ℤ
  pub risk_amount : ℤ
  pub drawdown_factor : ℕ
  pub check : ControlCheck

abbrev pub min_ℤ : ℤ → ℤ → ℤ
min_ℤ a b = if leb_ℤ a b then a else b

abbrev pub base_risk_pct : RiskLimits → Option ℤ → ℤ
base_risk_pct limits none = limits.default_risk_pct
base_risk_pct limits (some pct) = pct

abbrev pub effective_risk_pct : RiskLimits → Option ℤ → Bool → ℤ
effective_risk_pct limits strategy_risk_pct strategy_proven =
    let base = base_risk_pct limits strategy_risk_pct in
    min_ℤ (if strategy_proven then base else min_ℤ base limits.unproven_risk_pct)
      limits.max_risk_pct

-- `state.drawdown_pct >= pct`, the quotient multiplied out: peak to current over peak, times 100.
abbrev pub drawdown_at_least : RiskState → ℤ → Bool
drawdown_at_least state pct =
    if leb_ℤ state.peak_equity (pos 0)
    then leb_ℤ pct (pos 0)
    else leb_ℤ (pct *ℤ state.peak_equity) ((state.peak_equity -ℤ state.equity) *ℤ pos 100000000)

-- The multiplier, in tenths.
abbrev pub drawdown_size_factor : RiskLimits → RiskState → ℕ
drawdown_size_factor limits state =
    if drawdown_at_least state limits.drawdown_halve_pct then 5 else 10

-- A quotient with its fraction cut off.
abbrev pub quot : ℤ → ℕ → ℤ
quot (pos n) d = pos (n / d)
quot (negsuc n) d = sub_ℕ 0 (suc n / d)

abbrev pub unsized : ℤ → ℤ → ℕ → Sizing
unsized risk_pct risk_amount factor = record {
  qty = pos 0;
  risk_pct = risk_pct;
  risk_amount = risk_amount;
  drawdown_factor = factor;
  check = record { name = sizing; passed = false };
}

-- The whole shares that the risk amount pays for.
abbrev pub sized_qty : ℤ → ℕ → ℕ → ℤ
sized_qty risk_amount factor per_share_risk =
    quot (risk_amount *ℤ pos factor) (per_share_risk * 1000000000)

abbrev pub sized : ℤ → ℤ → ℕ → ℕ → Sizing
sized risk_pct risk_amount factor per_share_risk =
    let qty = sized_qty risk_amount factor per_share_risk in
    if per_share_risk == 0
    then unsized risk_pct risk_amount factor
    else if ltb_ℤ qty (pos 1)
    then unsized risk_pct risk_amount factor
    else record {
      qty = qty;
      risk_pct = risk_pct;
      risk_amount = risk_amount;
      drawdown_factor = factor;
      check = record { name = sizing; passed = true };
    }

-- The risk amount is in units of 10^-14 dollars.
abbrev pub size_position : SignalEvent → RiskState → RiskLimits → Sizing
size_position signal state limits =
    let risk_pct = effective_risk_pct limits state.strategy_risk_pct state.strategy_proven in
    sized risk_pct (state.equity *ℤ risk_pct) (drawdown_size_factor limits state)
      (abs (signal.entry_price -ℤ signal.stop_price))

abbrev pub check_account_tradeable : RiskState → ControlCheck
check_account_tradeable state = record {
  name = account_tradeable;
  passed = not (state.trading_blocked || state.account_blocked || state.trading_halted);
}

-- Membership in `_SUPPORTED_ENTRY_TYPES`.
abbrev pub is_entry_type : OrderType → Bool
is_entry_type OrderType.market = true
is_entry_type OrderType.limit = true
is_entry_type _ = false

abbrev pub check_entry_order_type : SignalEvent → ControlCheck
check_entry_order_type signal = record {
  name = entry_order_type;
  passed = is_entry_type signal.order_type;
}

abbrev pub is_day : TimeInForce → Bool
is_day TimeInForce.day = true
is_day _ = false

abbrev pub check_time_in_force : SignalEvent → ControlCheck
check_time_in_force signal = record { name = time_in_force; passed = is_day signal.time_in_force }

abbrev pub check_extended_hours : SignalEvent → ControlCheck
check_extended_hours signal = record { name = extended_hours; passed = not signal.extended_hours }

abbrev pub check_session_open : RiskState → RiskLimits → ControlCheck
check_session_open state limits = record {
  name = session_open;
  passed =
      state.market_open
      && not (leb state.next_close (state.now + limits.flatten_buffer_minutes * 60000000));
}

-- `limit > 0 and observed <= -limit`
abbrev pub loss_hit : ℤ → ℤ → Bool
loss_hit limit observed = ltb_ℤ (pos 0) limit && leb_ℤ (observed +ℤ limit) (pos 0)

abbrev pub check_daily_loss : RiskState → RiskLimits → ℤ → ControlCheck
check_daily_loss state limits risk_amount =
    let strat_limit = limits.daily_loss_risk_multiple *ℤ risk_amount in
    let port_limit = limits.daily_loss_limit_pct *ℤ state.equity in
    record {
      name = daily_loss;
      passed = not (
          loss_hit strat_limit (state.day_realized_pnl_strategy *ℤ pos 100000)
          || loss_hit port_limit ((state.equity -ℤ state.last_equity) *ℤ pos 100000000));
    }

abbrev pub check_consecutive_losses : RiskState → RiskLimits → ControlCheck
check_consecutive_losses state limits = record {
  name = consecutive_losses;
  passed = not (leb limits.max_consecutive_losses state.consecutive_losses);
}

abbrev pub check_drawdown_halt : RiskState → RiskLimits → ControlCheck
check_drawdown_halt state limits = record {
  name = drawdown_halt;
  passed = not (drawdown_at_least state limits.drawdown_halt_pct);
}

abbrev pub check_margin_headroom : RiskState → RiskLimits → ℤ → ℤ → ControlCheck
check_margin_headroom state limits qty entry =
    let projected = pos (abs state.position_market_value) +ℤ qty *ℤ entry in
    record {
      name = margin_headroom;
      passed =
          leb_ℤ (projected *ℤ pos 1000000) (state.buying_power *ℤ limits.margin_headroom_factor);
    }

abbrev pub below_cap : Option ℕ → ℕ → Bool
below_cap none count = true
below_cap (some cap) count = ltb count cap

abbrev pub check_max_positions : RiskState → ControlCheck
check_max_positions state = record {
  name = max_positions;
  passed = below_cap state.strategy_max_positions state.open_positions_count;
}

abbrev pub check_no_pyramiding : RiskState → ControlCheck
check_no_pyramiding state = record { name = no_pyramiding; passed = state.strategy_open_qty == 0 }

abbrev pub cooled_down : Option ℕ → ℕ → ℕ → Bool
cooled_down none now seconds = true
cooled_down (some last) now seconds = leb (last + seconds * 1000000) now

abbrev pub check_cooldown : RiskState → RiskLimits → ControlCheck
check_cooldown state limits = record {
  name = cooldown;
  passed = cooled_down state.last_entry_at state.now limits.symbol_cooldown_seconds;
}

abbrev pub check_volatility_halt : ControlCheck
check_volatility_halt = record { name = volatility_halt; passed = true }
