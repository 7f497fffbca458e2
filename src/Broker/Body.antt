-- ===== src/Broker/Body.antt =====
-- The JSON body of an order, `_build_order_body` of backend/app/brokers/alpaca/rest.py: an object as
-- its keys with their values, in order. A Decimal is given as its number, a symbol and a client id
-- as theirs.
use Prim.Native.String.{String}
use roi_gen.Base.{ℕ, Bool, true, false, Option, none, some, List, [], ◌∷◌, ◌++◌, ℤ}
use roi_gen.Models.Enums.{OrderSide, OrderType, OrderClass, TimeInForce}
use roi_gen.Risk.Request.{PositionIntent, OrderRequest}
pub mod ReadBack
mod Tests

pub data BodyValue : Type 0 where
  word : ℕ → BodyValue
  side : OrderSide → BodyValue
  order_type : OrderType → BodyValue
  time_in_force : TimeInForce → BodyValue
  order_class : OrderClass → BodyValue
  flag : Bool → BodyValue
  decimal : ℤ → BodyValue
  intent : PositionIntent → BodyValue
  prices : List (String × ℤ) → BodyValue

-- `if value is not None: body[key] = value`
module _ {ℓ} {A : Type ℓ} where
  abbrev pub entry : String → Option A → List (String × A)
  entry key none = []
  entry key (some value) = (key, value) ∷ []

abbrev pub as_value {ℓ} : {A : Type ℓ} → (A → BodyValue) → Option A → Option BodyValue
as_value f none = none
as_value f (some a) = some (f a)

abbrev pub stop_loss : Option ℤ → Option ℤ → Option (List (String × ℤ))
stop_loss none none = none
stop_loss stop limit = some (entry "stop_price" stop ++ entry "limit_price" limit)

abbrev pub take_profit : Option ℤ → Option (List (String × ℤ))
take_profit none = none
take_profit (some price) = some (("limit_price", price) ∷ [])

abbrev pub fixed_entries : OrderRequest → List (String × BodyValue)
fixed_entries r =
    ("symbol", word r.symbol)
    ∷ ("side", side r.side)
    ∷ ("type", order_type r.order_type)
    ∷ ("time_in_force", time_in_force r.time_in_force)
    ∷ ("order_class", order_class r.order_class)
    ∷ ("client_order_id", word r.client_order_id)
    ∷ ("extended_hours", flag r.extended_hours)
    ∷ []

unfoldable pub build_order_body : OrderRequest → List (String × BodyValue)
build_order_body r =
    fixed_entries r
    ++ (entry "qty" (as_value decimal r.qty)
        ++ (entry "notional" (as_value decimal r.notional)
            ++ (entry "limit_price" (as_value decimal r.limit_price)
                ++ (entry "stop_price" (as_value decimal r.stop_price)
                    ++ (entry "trail_percent" (as_value decimal r.trail_percent)
                        ++ (entry "position_intent" (as_value intent r.position_intent)
                            ++ (entry "take_profit"
                                  (as_value prices (take_profit r.take_profit_limit_price))
                                ++ entry "stop_loss" (
                                    as_value prices (
                                      stop_loss r.stop_loss_stop_price
                                        r.stop_loss_limit_price)))))))))
