-- ===== src/Broker/Body/ReadBack.antt =====
-- What `_build_order_body` of backend/app/brokers/alpaca/rest.py writes, read back by its keys.
use Prim.Native.String.{String}
use text.Mathlib.Text.{◌==◌}
use roi_gen.Base.{
  ℕ, ◌≡◌, refl, ◌∙◌, ap, Bool, Option, none, some, List, [], ◌∷◌, ◌++◌, ℤ, if◌then◌else◌,
  Bool-cases, inl, inr,
}
use roi_gen.Models.Enums.{OrderSide, OrderType, OrderClass, TimeInForce}
use roi_gen.Risk.Request.{PositionIntent, OrderRequest}
use roi_gen.Broker.Body.{
  BodyValue, word, side, order_type, time_in_force, order_class, flag, decimal, intent, prices,
  entry, as_value, stop_loss, take_profit, build_order_body,
}

-- `body.get(key)`, for an object in which each key stands once.
module _ {ℓ} {A : Type ℓ} where
  abbrev lookup_key : String → List (String × A) → Option A
  lookup_key key [] = none
  lookup_key key ((k, value) ∷ rest) = if k == key then some value else lookup_key key rest

  abbrev or_else : Option A → Option A → Option A
  or_else none b = b
  or_else (some a) b = some a

  or_else-none : (o : Option A) → or_else o none ≡ o
  or_else-none none = refl
  or_else-none (some a) = refl

  lookup_key-append :
      (key : String) (xs ys : List (String × A))
      → lookup_key key (xs ++ ys) ≡ or_else (lookup_key key xs) (lookup_key key ys)
  lookup_key-append key [] ys = refl
  lookup_key-append key ((k, v) ∷ xs) ys = elim (Bool-cases (k == key)) [
    | inl e ↦ rw e refl
    | inr e ↦ rw e (lookup_key-append key xs ys)
  ]

  lookup_key-entry :
      (key k : String) (o : Option A) → lookup_key key (entry k o) ≡ (if k == key then o else none)
  lookup_key-entry key k none = elim (Bool-cases (k == key)) [
    | inl e ↦ rw e refl
    | inr e ↦ rw e refl
  ]
  lookup_key-entry key k (some v) = refl

ruleset lookups = (lookup_key-append, lookup_key-entry, or_else-none)

-- The value of a key by its type; `none` where the key is not there or holds another type.
abbrev word_of : Option BodyValue → Option ℕ
word_of (some (word n)) = some n
word_of _ = none

abbrev side_of : Option BodyValue → Option OrderSide
side_of (some (side s)) = some s
side_of _ = none

abbrev type_of : Option BodyValue → Option OrderType
type_of (some (order_type t)) = some t
type_of _ = none

abbrev time_in_force_of : Option BodyValue → Option TimeInForce
time_in_force_of (some (time_in_force t)) = some t
time_in_force_of _ = none

abbrev class_of_order : Option BodyValue → Option OrderClass
class_of_order (some (order_class c)) = some c
class_of_order _ = none

abbrev flag_of : Option BodyValue → Option Bool
flag_of (some (flag b)) = some b
flag_of _ = none

abbrev decimal_of : Option BodyValue → Option ℤ
decimal_of (some (decimal d)) = some d
decimal_of _ = none

abbrev intent_of : Option BodyValue → Option PositionIntent
intent_of (some (intent i)) = some i
intent_of _ = none

abbrev price_of : String → Option BodyValue → Option ℤ
price_of key (some (prices ps)) = lookup_key key ps
price_of key _ = none

infixl 5 ◌>>=◌
abbrev ◌>>=◌ {ℓ κ} : {A : Type ℓ} {B : Type κ} → Option A → (A → Option B) → Option B
none >>= k = none
some a >>= k = k a

-- The request that a body asks for, where the keys that every body has are there.
pub read_body : List (String × BodyValue) → Option OrderRequest
read_body body = do
  symbol ← word_of (lookup_key "symbol" body)
  side_word ← side_of (lookup_key "side" body)
  type_word ← type_of (lookup_key "type" body)
  force ← time_in_force_of (lookup_key "time_in_force" body)
  class_word ← class_of_order (lookup_key "order_class" body)
  client_order_id ← word_of (lookup_key "client_order_id" body)
  extended_hours ← flag_of (lookup_key "extended_hours" body)
  some (record {
    client_order_id = client_order_id;
    symbol = symbol;
    side = side_word;
    order_type = type_word;
    time_in_force = force;
    order_class = class_word;
    qty = decimal_of (lookup_key "qty" body);
    notional = decimal_of (lookup_key "notional" body);
    limit_price = decimal_of (lookup_key "limit_price" body);
    stop_price = decimal_of (lookup_key "stop_price" body);
    trail_percent = decimal_of (lookup_key "trail_percent" body);
    extended_hours = extended_hours;
    position_intent = intent_of (lookup_key "position_intent" body);
    take_profit_limit_price = price_of "limit_price" (lookup_key "take_profit" body);
    stop_loss_stop_price = price_of "stop_price" (lookup_key "stop_loss" body);
    stop_loss_limit_price = price_of "limit_price" (lookup_key "stop_loss" body);
  })

decimal_back : (o : Option ℤ) → decimal_of (as_value decimal o) ≡ o
decimal_back none = refl
decimal_back (some d) = refl

intent_back : (o : Option PositionIntent) → intent_of (as_value intent o) ≡ o
intent_back none = refl
intent_back (some i) = refl

profit_back : (o : Option ℤ) → price_of "limit_price" (as_value prices (take_profit o)) ≡ o
profit_back none = refl
profit_back (some d) = refl

stop_back :
    (stop limit : Option ℤ)
    → (price_of "stop_price" (as_value prices (stop_loss stop limit)) ≡ stop)
      × (price_of "limit_price" (as_value prices (stop_loss stop limit)) ≡ limit)
stop_back none none = (refl, refl)
stop_back none (some l) = (refl, refl)
stop_back (some s) none = (refl, refl)
stop_back (some s) (some l) = (refl, refl)

module _ (r : OrderRequest) where
  -- What the body holds under each of the keys that it may lack.
  optional_keys :
      (lookup_key "qty" (build_order_body r) ≡ as_value decimal r.qty)
      × (lookup_key "notional" (build_order_body r) ≡ as_value decimal r.notional)
      × (lookup_key "limit_price" (build_order_body r) ≡ as_value decimal r.limit_price)
      × (lookup_key "stop_price" (build_order_body r) ≡ as_value decimal r.stop_price)
      × (lookup_key "trail_percent" (build_order_body r) ≡ as_value decimal r.trail_percent)
      × (lookup_key "position_intent" (build_order_body r) ≡ as_value intent r.position_intent)
      × (lookup_key "take_profit" (build_order_body r)
          ≡ as_value prices (take_profit r.take_profit_limit_price))
      × (lookup_key "stop_loss" (build_order_body r)
          ≡ as_value prices (stop_loss r.stop_loss_stop_price r.stop_loss_limit_price))
  unfolding build_order_body
  optional_keys = (
    simp lookups,
    simp lookups,
    simp lookups,
    simp lookups,
    simp lookups,
    simp lookups,
    simp lookups,
    simp lookups,
  )

  -- Reading a body back gives the request that it was built from: no field is lost or confused with
  -- another, whichever of the optional ones are there, protective legs included.
  pub read_body-build_order_body : read_body (build_order_body r) ≡ some r
  unfolding read_body build_order_body
  read_body-build_order_body = λ i. some (record {
    client_order_id = r.client_order_id;
    symbol = r.symbol;
    side = r.side;
    order_type = r.order_type;
    time_in_force = r.time_in_force;
    order_class = r.order_class;
    qty = (ap decimal_of optional_keys.0 ∙ decimal_back r.qty) i;
    notional = (ap decimal_of optional_keys.1 ∙ decimal_back r.notional) i;
    limit_price = (ap decimal_of optional_keys.2 ∙ decimal_back r.limit_price) i;
    stop_price = (ap decimal_of optional_keys.3 ∙ decimal_back r.stop_price) i;
    trail_percent = (ap decimal_of optional_keys.4 ∙ decimal_back r.trail_percent) i;
    extended_hours = r.extended_hours;
    position_intent = (ap intent_of optional_keys.5 ∙ intent_back r.position_intent) i;
    take_profit_limit_price =
        (ap (price_of "limit_price") optional_keys.6 ∙ profit_back r.take_profit_limit_price) i;
    stop_loss_stop_price =
        (ap (price_of "stop_price") optional_keys.7
            ∙ (stop_back r.stop_loss_stop_price r.stop_loss_limit_price).0)
          i;
    stop_loss_limit_price =
        (ap (price_of "limit_price") optional_keys.7
            ∙ (stop_back r.stop_loss_stop_price r.stop_loss_limit_price).1)
          i;
  })
