-- ===== src/Risk/State.antt =====
-- The state that the risk engine evaluates against, loaded from the broker's answers and the
-- tables: backend/app/engine/risk/state.py. The start of the day in New York is the parameter
-- `et_day_start`, which stands for the time zone database.
use roi_gen.Base.{
  ℕ, zero, suc, Bool, true, false, ◌&&◌, Option, none, some, List, [], ◌∷◌, map, ℤ, pos, ltb, leb,
  leb_ℤ, ltb_ℤ, ◌==◌, column_is, is_some, if◌then◌else◌, select, find, any, sum_of, total_of,
}
use roi_gen.Models.Enums.{StrategyStatus}
use roi_gen.Models.Commands.{Text}
use roi_gen.Models.Rows.{Lot, LotClose}
use roi_gen.Risk.Controls.{RiskState}

-- The column `strategies.status` is free text: a member of the enumeration, or anything else.
pub data StrategyText : Type 0 where
  member : StrategyStatus → StrategyText
  other_status : Text → StrategyText

pub record Strategy : Type 0 where
  pub id : ℕ
  pub status : StrategyText
  pub risk_per_trade_pct : Option ℤ
  pub max_positions : Option ℕ

pub record EquitySnapshot : Type 0 where
  pub portfolio_id : ℕ
  pub equity : ℤ

pub record BrokerAccount : Type 0 where
  pub equity : ℤ
  pub last_equity : ℤ
  pub cash : ℤ
  pub buying_power : ℤ
  pub position_market_value : ℤ
  pub trading_blocked : Bool
  pub account_blocked : Bool

pub record MarketClock : Type 0 where
  pub timestamp : ℕ
  pub is_open : Bool
  pub next_close : ℕ

-- The tables that the provider reads.
pub record RiskTables : Type 0 where
  pub strategies : List Strategy
  pub snapshots : List EquitySnapshot
  pub lots : List Lot
  pub lot_closes : List LotClose

abbrev pub is_live : StrategyText → Bool
is_live (member StrategyStatus.live) = true
is_live _ = false

abbrev pub is_proven : Option Strategy → Bool
is_proven none = false
is_proven (some strategy) = is_live strategy.status

abbrev pub risk_pct_of : Option Strategy → Option ℤ
risk_pct_of none = none
risk_pct_of (some strategy) = strategy.risk_per_trade_pct

abbrev pub max_positions_of : Option Strategy → Option ℕ
max_positions_of none = none
max_positions_of (some strategy) = strategy.max_positions

abbrev pub realized_since : ℕ → ℕ → ℕ → LotClose → Bool
realized_since portfolio_id strategy_id start close =
    close.portfolio_id == portfolio_id
    && column_is close.strategy_id strategy_id
    && leb start close.closed_at

abbrev pub sum_realized : List LotClose → ℕ → ℕ → ℕ → ℤ
sum_realized lot_closes portfolio_id strategy_id start =
    total_of LotClose.realized_pnl
      (select (realized_since portfolio_id strategy_id start) lot_closes)

abbrev pub of_strategy : ℕ → ℕ → Lot → Bool
of_strategy portfolio_id strategy_id lot =
    lot.portfolio_id == portfolio_id && column_is lot.strategy_id strategy_id

abbrev pub is_open_lot : ℕ → ℕ → Lot → Bool
is_open_lot portfolio_id strategy_id lot =
    of_strategy portfolio_id strategy_id lot && ltb 0 lot.qty_open

-- `count(distinct(x))`
abbrev pub count_distinct : List ℕ → ℕ
count_distinct [] = 0
count_distinct (x ∷ xs) =
    if any (λ y. x == y) xs then count_distinct xs else suc (count_distinct xs)

abbrev pub count_open_symbols : List Lot → ℕ → ℕ → ℕ
count_open_symbols lots portfolio_id strategy_id =
    count_distinct (map Lot.symbol (select (is_open_lot portfolio_id strategy_id) lots))

-- `order_by(Lot.closed_at.desc())`, of lots that have the column.
abbrev pub closed_after : Option ℕ → Option ℕ → Bool
closed_after (some a) (some b) = leb b a
closed_after _ none = true
closed_after none (some b) = false

abbrev pub insert_closed : Lot → List Lot → List Lot
insert_closed lot [] = lot ∷ []
insert_closed lot (other ∷ lots) =
    let rest = insert_closed lot lots in
    if closed_after lot.closed_at other.closed_at then lot ∷ other ∷ lots else other ∷ rest

abbrev pub order_by_closed : List Lot → List Lot
order_by_closed [] = []
order_by_closed (lot ∷ lots) = insert_closed lot (order_by_closed lots)

abbrev pub take {ℓ} : {A : Type ℓ} → ℕ → List A → List A
take zero xs = []
take (suc n) [] = []
take (suc n) (x ∷ xs) = x ∷ take n xs

-- The losses before the first trade that is none.
abbrev pub streak_of : List Lot → ℕ
streak_of [] = 0
streak_of (lot ∷ lots) = if ltb_ℤ lot.realized_pnl (pos 0) then suc (streak_of lots) else 0

abbrev pub is_closed_lot : ℕ → ℕ → Lot → Bool
is_closed_lot portfolio_id strategy_id lot =
    of_strategy portfolio_id strategy_id lot && is_some lot.closed_at

-- The closed lots that the scan reads, the latest first, at most `_CONSECUTIVE_SCAN_LIMIT`.
abbrev pub recent_closed : List Lot → ℕ → ℕ → List Lot
recent_closed lots portfolio_id strategy_id =
    take 64 (order_by_closed (select (is_closed_lot portfolio_id strategy_id) lots))

abbrev pub consecutive_losses : List Lot → ℕ → ℕ → ℕ
consecutive_losses lots portfolio_id strategy_id =
    streak_of (recent_closed lots portfolio_id strategy_id)

abbrev pub in_symbol : ℕ → ℕ → ℕ → Lot → Bool
in_symbol portfolio_id strategy_id symbol lot =
    of_strategy portfolio_id strategy_id lot && lot.symbol == symbol

abbrev pub strategy_open_qty : List Lot → ℕ → ℕ → ℕ → ℕ
strategy_open_qty lots portfolio_id strategy_id symbol =
    sum_of Lot.qty_open
      (select (λ lot. in_symbol portfolio_id strategy_id symbol lot && ltb 0 lot.qty_open) lots)

abbrev pub later_of : ℕ → Option ℕ → ℕ
later_of a none = a
later_of a (some b) = if leb a b then b else a

-- `max(Lot.opened_at)`, null where no row is selected.
abbrev pub latest_opened : List Lot → Option ℕ
latest_opened [] = none
latest_opened (lot ∷ lots) = some (later_of lot.opened_at (latest_opened lots))

abbrev pub last_entry_at : List Lot → ℕ → ℕ → ℕ → Option ℕ
last_entry_at lots portfolio_id strategy_id symbol =
    latest_opened (select (in_symbol portfolio_id strategy_id symbol) lots)

abbrev pub max_ℤ : ℤ → ℤ → ℤ
max_ℤ a b = if leb_ℤ a b then b else a

-- `max(max of the snapshots, current)`, the current equity standing in where there is no snapshot.
abbrev pub peak_of : ℤ → List EquitySnapshot → ℤ
peak_of current [] = current
peak_of current (snapshot ∷ snapshots) = max_ℤ snapshot.equity (peak_of current snapshots)

abbrev pub peak_equity : List EquitySnapshot → ℕ → ℤ → ℤ
peak_equity snapshots portfolio_id current =
    peak_of current (select (λ snapshot. snapshot.portfolio_id == portfolio_id) snapshots)

module _ (et_day_start : ℕ → ℕ) where
  abbrev pub load : RiskTables → BrokerAccount → MarketClock → ℕ → ℕ → ℕ → Bool → RiskState
  load tables account clock portfolio_id strategy_id symbol trading_halted =
      let strategy = find (λ row. Strategy.id row == strategy_id) tables.strategies in
      record {
        portfolio_id = portfolio_id;
        strategy_id = strategy_id;
        symbol = symbol;
        now = clock.timestamp;
        market_open = clock.is_open;
        next_close = clock.next_close;
        equity = account.equity;
        last_equity = account.last_equity;
        cash = account.cash;
        buying_power = account.buying_power;
        position_market_value = account.position_market_value;
        trading_blocked = account.trading_blocked;
        account_blocked = account.account_blocked;
        strategy_proven = is_proven strategy;
        strategy_risk_pct = risk_pct_of strategy;
        strategy_max_positions = max_positions_of strategy;
        strategy_open_qty = strategy_open_qty tables.lots portfolio_id strategy_id symbol;
        open_positions_count = count_open_symbols tables.lots portfolio_id strategy_id;
        day_realized_pnl_strategy =
            sum_realized tables.lot_closes portfolio_id strategy_id (et_day_start clock.timestamp);
        consecutive_losses = consecutive_losses tables.lots portfolio_id strategy_id;
        peak_equity = peak_equity tables.snapshots portfolio_id account.equity;
        last_entry_at = last_entry_at tables.lots portfolio_id strategy_id symbol;
        trading_halted = trading_halted;
      }
