-- ===== src/Risk/Request.antt =====
-- An order to submit, `OrderRequest` of backend/app/brokers/dto.py, and the price rule of
-- backend/app/brokers/pricing.py. Prices and money are in units of 10^-6.
use roi_gen.Base.{
  ℕ, suc, ◌+◌, ◌*◌, ◌/◌, Bool, true, false, not, ◌&&◌, ◌||◌, Option, none, some, ℤ, pos, negsuc,
  sub_ℕ, leb_ℤ, is_some, if◌then◌else◌,
}
use roi_gen.Models.Enums.{OrderSide, OrderType, OrderClass, TimeInForce}

pub data PositionIntent : Type 0 where
  buy_to_open buy_to_close sell_to_open sell_to_close : PositionIntent

pub record OrderRequest : Type 0 where
  pub client_order_id : ℕ
  pub symbol : ℕ
  pub side : OrderSide
  pub order_type : OrderType
  pub time_in_force : TimeInForce
  pub order_class : OrderClass
  pub qty : Option ℤ
  pub notional : Option ℤ
  pub limit_price : Option ℤ
  pub stop_price : Option ℤ
  pub trail_percent : Option ℤ
  pub extended_hours : Bool
  pub position_intent : Option PositionIntent
  pub take_profit_limit_price : Option ℤ
  pub stop_loss_stop_price : Option ℤ
  pub stop_loss_limit_price : Option ℤ

-- An amount that is given and not positive.
abbrev pub not_positive : Option ℤ → Bool
not_positive none = false
not_positive (some amount) = leb_ℤ amount (pos 0)

abbrev pub needs_limit : OrderType → Bool
needs_limit OrderType.limit = true
needs_limit OrderType.stop_limit = true
needs_limit _ = false

abbrev pub needs_stop : OrderType → Bool
needs_stop OrderType.stop = true
needs_stop OrderType.stop_limit = true
needs_stop _ = false

abbrev pub needs_trail : OrderType → Bool
needs_trail OrderType.trailing_stop = true
needs_trail _ = false

abbrev pub is_bracket_class : OrderClass → Bool
is_bracket_class OrderClass.bracket = true
is_bracket_class _ = false

-- `(a is None) == (b is None)`
abbrev pub same_presence : Bool → Bool → Bool
same_presence true true = true
same_presence false false = true
same_presence _ _ = false

abbrev pub has_protection : OrderRequest → Bool
has_protection r =
    is_some r.take_profit_limit_price
    || is_some r.stop_loss_stop_price
    || is_some r.stop_loss_limit_price

-- The conditions of `_validate`, in its order; each raises ValueError.
abbrev pub is_refused : OrderRequest → Bool
is_refused r =
    same_presence (is_some r.qty) (is_some r.notional)
    || not_positive r.qty
    || not_positive r.notional
    || needs_limit r.order_type && not (is_some r.limit_price)
    || needs_stop r.order_type && not (is_some r.stop_price)
    || needs_trail r.order_type && not (is_some r.trail_percent)
    || is_bracket_class r.order_class && not (has_protection r)
    || is_bracket_class r.order_class && r.extended_hours

-- The request that the constructor returns, or none where `_validate` raises.
abbrev pub validate : OrderRequest → Option OrderRequest
validate r = if is_refused r then none else some r

-- The tick of a price: a cent from one dollar up, a hundredth of a cent below.
abbrev pub tick_of : ℤ → ℕ
tick_of price = if leb_ℤ (pos 1000000) price then 10000 else 100

-- ROUND_HALF_UP of a magnitude to a multiple of the tick, a half going away from zero.
abbrev pub round_half_up : ℕ → ℕ → ℕ
round_half_up tick n = (n + tick / 2) / tick * tick

abbrev pub quantize : ℕ → ℤ → ℤ
quantize tick (pos n) = pos (round_half_up tick n)
quantize tick (negsuc n) = sub_ℕ 0 (round_half_up tick (suc n))

abbrev pub quantize_price : ℤ → ℤ
quantize_price price = quantize (tick_of price) price
