-- ===== src/Strategy/Probe.antt =====
-- The probe strategy, backend/app/engine/strategies/probe.py. What the time zone database says of an
-- instant is the parameter `et`, and the start of its day the parameter `et_day_start`; the id that
-- `uuid4` gives a signal is `signal_id`. Percentages are in units of 10^-6.
use roi_gen.Base.{
  ℕ, suc, ◌+◌, ◌*◌, ◌/◌, Bool, true, false, not, ◌&&◌, Option, none, some, List, [], ◌∷◌, ℤ, pos,
  negsuc, sub_ℕ, ◌+ℤ◌, ◌-ℤ◌, ◌*ℤ◌, leb_ℤ, ltb, leb, ◌==◌, if◌then◌else◌, is_some, column_is, find,
  select, update_where, any, length,
}
use roi_gen.Models.Enums.{OrderSide, OrderType, TimeInForce}
use roi_gen.Models.Rows.{Order}
use roi_gen.Risk.Request.{quantize}
use roi_gen.Risk.Controls.{SignalEvent}
pub mod Bounded

-- The wall clock in New York; Monday is day 0.
pub record EtClock : Type 0 where
  pub date : ℕ
  pub weekday : ℕ
  pub hour : ℕ
  pub minute : ℕ

pub record Bar : Type 0 where
  pub symbol : ℕ
  pub timestamp : ℕ
  pub close : ℤ

pub record Probe : Type 0 where
  pub strategy_id : ℕ
  pub portfolio_id : ℕ
  pub symbols : List ℕ
  pub stop_pct : ℤ
  pub take_profit_pct : Option ℤ
  pub max_entries_per_session : ℕ

pub record DayState : Type 0 where
  pub symbol : ℕ
  pub et_date : ℕ
  pub entries : ℕ

-- The checks of the constructor; `false` is a ValueError.
abbrev pub is_configured : Probe → Bool
is_configured p =
    not (leb_ℤ p.stop_pct (pos 0))
    && (elim p.take_profit_pct [ none ↦ true | some pct ↦ not (leb_ℤ pct (pos 0)) ]
        && leb 1 p.max_entries_per_session)

abbrev pub in_rth : EtClock → Bool
in_rth c =
    ltb c.weekday 5
    && (leb (9 * 60 + 30) (c.hour * 60 + c.minute) && ltb (c.hour * 60 + c.minute) (16 * 60))

-- A product of a price and a percentage, in units of 10^-12, to a price by the rule of
-- backend/app/brokers/pricing.py: cents from one dollar on, hundredths of a cent below.
abbrev pub product_tick : ℤ → ℕ
product_tick p = if leb_ℤ (pos 1000000000000) p then 10000000000 else 100000000

abbrev pub to_price : ℤ → ℤ
to_price (pos n) = pos (n / 1000000)
to_price (negsuc n) = sub_ℕ 0 (suc n / 1000000)

abbrev pub quantize_product : ℤ → ℤ
quantize_product p = to_price (quantize (product_tick p) p)

abbrev pub one : ℤ
one = pos 1000000

abbrev pub entry_signal : Probe → ℕ → Bar → SignalEvent
entry_signal p signal_id bar = record {
  signal_id = signal_id;
  portfolio_id = p.portfolio_id;
  strategy_id = p.strategy_id;
  symbol = bar.symbol;
  side = OrderSide.buy;
  entry_price = bar.close;
  stop_price = quantize_product (bar.close *ℤ (one -ℤ p.stop_pct));
  take_profit_price = elim p.take_profit_pct [
    | none ↦ none
    | some pct ↦ some (quantize_product (bar.close *ℤ (one +ℤ pct)))
  ];
  order_type = OrderType.market;
  time_in_force = TimeInForce.day;
  extended_hours = false;
}

-- The parents that the strategy entered in the symbol since an instant.
abbrev pub is_entry : Probe → ℕ → ℕ → Order → Bool
is_entry p symbol day_start o =
    column_is o.strategy_id p.strategy_id
    && (o.symbol == symbol && (not (is_some o.parent_order_id) && leb day_start o.created_at))

module _ (et : ℕ → EtClock) (et_day_start : ℕ → ℕ) where
  -- The orders are none where the strategy has no session factory.
  abbrev pub entries_already_today : Probe → Option (List Order) → ℕ → ℕ → ℕ
  entries_already_today p none symbol instant = 0
  entries_already_today p (some orders) symbol instant =
      length (select (is_entry p symbol (et_day_start instant)) orders)

  abbrev pub state_for : ℕ → List DayState → Option DayState
  state_for symbol = find (λ d. d.symbol == symbol)

  -- The cached state of the day, or one that is seeded from the orders.
  pub day_state : Probe → Option (List Order) → Bar → Option DayState → DayState
  day_state p orders bar none = record {
    symbol = bar.symbol;
    et_date = (et bar.timestamp).date;
    entries = entries_already_today p orders bar.symbol bar.timestamp;
  }
  day_state p orders bar (some d) = if d.et_date == (et bar.timestamp).date then d else record {
    symbol = bar.symbol;
    et_date = (et bar.timestamp).date;
    entries = entries_already_today p orders bar.symbol bar.timestamp;
  }

  -- `self._day_state[bar.symbol] = state`: the newest entry for the key is found first.
  abbrev pub emit_if_room :
      Probe → ℕ → Bar → DayState → List DayState → Option SignalEvent × List DayState
  emit_if_room p signal_id bar d days =
      if leb p.max_entries_per_session d.entries
      then (none, record d { symbol = bar.symbol } ∷ days)
      else (
        some (entry_signal p signal_id bar),
        record d { symbol = bar.symbol; entries = d.entries + 1 } ∷ days,
      )

  unfoldable pub on_bar :
      Probe → Option (List Order) → ℕ → Bar → List DayState → Option SignalEvent × List DayState
  unfolding day_state
  on_bar p orders signal_id bar days =
      if any (λ s. s == bar.symbol) p.symbols && in_rth (et bar.timestamp)
      then emit_if_room p signal_id bar (day_state p orders bar (state_for bar.symbol days)) days
      else (none, days)
