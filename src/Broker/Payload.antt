-- ===== src/Broker/Payload.antt =====
-- The JSON of an order, read by `_parse_order` of backend/app/brokers/alpaca/rest.py. A payload is
-- given with each field as its parser finds it. The legs of a leg are not modelled.
use roi_gen.Base.{ℕ, Bool, Option, none, some, List, [], ◌∷◌, ℤ}
use roi_gen.Models.Enums.{OrderSide, OrderType, OrderClass, TimeInForce}
use roi_gen.Execution.State.{BrokerOrder}
use roi_gen.Reconcile.Adopt.{OrderTree}
use roi_gen.Broker.Status.{StatusRaw, map_status}

-- A number or an instant: null or not there, readable, or a text that its parser raises on.
pub data Field {ℓ} (A : Type ℓ) : Type ℓ where
  missing malformed : Field A
  given : A → Field A

-- A word of an enumeration: null, not there or empty; a member; or another word.
pub data Word {ℓ} (A : Type ℓ) : Type ℓ where
  missing unrecognized : Word A
  member : A → Word A

pub record OrderPayload : Type 0 where
  pub id : Option ℕ
  pub client_order_id : Option ℕ
  pub symbol : Option ℕ
  pub side : Word OrderSide
  pub type_word : Word OrderType
  pub order_type : Word OrderType
  pub order_class : Word OrderClass
  pub time_in_force : Word TimeInForce
  pub status : StatusRaw
  pub qty : Field ℕ
  pub filled_qty : Field ℕ
  pub limit_price : Field ℕ
  pub stop_price : Field ℕ
  pub trail_percent : Field ℕ
  pub filled_avg_price : Field ℤ
  pub extended_hours : Bool
  pub submitted_at : Field ℕ
  pub filled_at : Field ℕ
  pub canceled_at : Field ℕ
  pub raw : Option ℕ

pub record TreePayload : Type 0 where
  pub order : OrderPayload
  pub legs : List OrderPayload

module _ {ℓ} {A : Type ℓ} where
  -- `_dec` and `_dt`; the outer `none` is an exception.
  abbrev pub dec : Field A → Option (Option A)
  dec Field.missing = some none
  dec Field.malformed = none
  dec (Field.given a) = some (some a)

  -- `_dec0`, with the zero of the type.
  abbrev pub dec0 : A → Field A → Option A
  dec0 zero_value Field.missing = some zero_value
  dec0 zero_value Field.malformed = none
  dec0 zero_value (Field.given a) = some a

  abbrev pub enum_or : A → Word A → A
  enum_or default Word.missing = default
  enum_or default Word.unrecognized = default
  enum_or default (Word.member a) = a

  -- `a or b` on what two keys hold.
  abbrev pub first_word : Word A → Word A → Word A
  first_word Word.missing b = b
  first_word a _ = a

infixl 5 ◌>>=◌
abbrev ◌>>=◌ {ℓ κ} : {A : Type ℓ} {B : Type κ} → Option A → (A → Option B) → Option B
none >>= k = none
some a >>= k = k a

unfoldable pub parse_one : OrderPayload → Option BrokerOrder
parse_one p = do
  id ← p.id
  symbol ← p.symbol
  qty ← dec p.qty
  filled_qty ← dec0 0 p.filled_qty
  limit_price ← dec p.limit_price
  stop_price ← dec p.stop_price
  trail_percent ← dec p.trail_percent
  filled_avg_price ← dec p.filled_avg_price
  submitted_at ← dec p.submitted_at
  filled_at ← dec p.filled_at
  canceled_at ← dec p.canceled_at
  some (record {
    broker_order_id = id;
    client_order_id = p.client_order_id;
    symbol = symbol;
    side = enum_or OrderSide.buy p.side;
    order_type = enum_or OrderType.market (first_word p.type_word p.order_type);
    order_class = enum_or OrderClass.simple p.order_class;
    time_in_force = enum_or TimeInForce.day p.time_in_force;
    status = map_status p.status;
    qty = qty;
    filled_qty = filled_qty;
    limit_price = limit_price;
    stop_price = stop_price;
    filled_avg_price = filled_avg_price;
    extended_hours = p.extended_hours;
    submitted_at = submitted_at;
    filled_at = filled_at;
    canceled_at = canceled_at;
    raw = p.raw;
  })

unfoldable pub parse_legs : List OrderPayload → Option (List BrokerOrder)
unfolding parse_one
parse_legs [] = some []
parse_legs (p ∷ ps) = do leg ← parse_one p; legs ← parse_legs ps; some (leg ∷ legs)

unfoldable pub parse_order : TreePayload → Option OrderTree
unfolding parse_one parse_legs
parse_order t = do
  legs ← parse_legs t.legs
  order ← parse_one t.order
  some (record { order = order; legs = legs })
