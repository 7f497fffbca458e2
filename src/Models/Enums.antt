-- ===== src/Models/Enums.antt =====
-- The enumerations of backend/app/models/enums.py, one constructor for each member.
use roi_gen.Base.{ℕ, Bool, true, false}

pub data OrderSide : Type 0 where
  buy sell : OrderSide

pub data OrderType : Type 0 where
  market limit stop stop_limit trailing_stop : OrderType

pub data OrderClass : Type 0 where
  simple bracket oco oto : OrderClass

pub data TimeInForce : Type 0 where
  day gtc opg cls ioc fok : TimeInForce

pub data OrderStatus : Type 0 where
  pending_submit failed submitted accepted partially_filled filled canceled expired : OrderStatus
  rejected replaced pending_cancel pending_replace stopped suspended calculated : OrderStatus
  done_for_day held : OrderStatus

pub data StrategyStatus : Type 0 where
  draft backtesting paper live paused stopped : StrategyStatus

pub data PortfolioMode : Type 0 where
  paper live : PortfolioMode

pub data EventSource : Type 0 where
  api engine broker system : EventSource

pub data EngineCommandAction : Type 0 where
  halt flatten resume : EngineCommandAction

-- The column `orders.status` is free text: a member of the enumeration, or anything else.
pub data StatusText : Type 0 where
  known : OrderStatus → StatusText
  unknown : ℕ → StatusText

abbrev pub is_buy : OrderSide → Bool
is_buy OrderSide.buy = true
is_buy OrderSide.sell = false

-- `a is b` and `a == b` for sides.
abbrev pub same_side : OrderSide → OrderSide → Bool
same_side OrderSide.buy OrderSide.buy = true
same_side OrderSide.sell OrderSide.sell = true
same_side _ _ = false

-- The verdict of backend/app/engine/execution/state.py on an order snapshot.
pub data TransitionPlan : Type 0 where
  apply stale terminal_conflict : TransitionPlan
