-- ===== src/Execution/Subscriber.antt =====
-- The bridge from the Redis channel to the trade-updates writer, `RedisTradeUpdateSubscriber` and
-- `on_trade_update` of backend/app/engine/execution/trade_updates.py. A message is given as what it
-- decodes to; each is handled on the database as it is at its turn.
use roi_gen.Base.{ℕ, Bool, true, false, Option, none, some, List, [], ◌∷◌, ◌++◌, ℤ}
use roi_gen.Models.Enums.{EventSource}
use roi_gen.Models.Rows.{Order, Event, Db}
use roi_gen.Execution.State.{BrokerOrder}
use roi_gen.Execution.TradeUpdates.{TradeUpdate, FillEvent}
use roi_gen.Execution.TradeUpdates.Process.{process, locate}
pub mod Handling
pub mod Delivered
pub mod InOrder
mod Tests

-- No JSON, no trade update, a payload that does not validate, or an update.
pub data RawMessage : Type 0 where
  bad_json other_message bad_payload : RawMessage
  update : TradeUpdate → RawMessage

abbrev pub decode : RawMessage → Option TradeUpdate
decode (update u) = some u
decode _ = none

-- `_audit_error`, on a fresh session.
abbrev pub audit_error_row : TradeUpdate → Db → Db
audit_error_row u db = record db {
  event_log =
      record {
        source = EventSource.engine;
        portfolio_id = none;
        strategy_id = none;
        order_id = none;
        event = Event.trade_update_error u.order.broker_order_id u.order.client_order_id;
      }
      ∷ db.event_log;
}

abbrev pub events_of : Option FillEvent → List FillEvent
events_of none = []
events_of (some event) = event ∷ []

-- The events that are published, and the database: an exception rolls back and is audited.
abbrev pub settle_update : TradeUpdate → Db → Option (Option FillEvent × Db) → List FillEvent × Db
settle_update u db none = ([], audit_error_row u db)
settle_update u db (some (event, db')) = (events_of event, db')

-- The queue of messages, the event that `release` sets, the database and the bus.
pub record Subscriber : Type 0 where
  pub queue : List RawMessage
  pub ready : Bool
  pub db : Db
  pub published : List FillEvent

abbrev pub new_subscriber : Db → Subscriber
new_subscriber db = record { queue = []; ready = false; db = db; published = [] }

abbrev pub release : Subscriber → Subscriber
release s = record s { ready = true }

-- A message that `listen` receives.
abbrev pub enqueue_message : RawMessage → Subscriber → Subscriber
enqueue_message raw s = record s { queue = s.queue ++ (raw ∷ []) }

abbrev pub last_view : Db → List Db → Db
last_view db [] = db
last_view db (view ∷ views) = last_view view views

abbrev pub view_of : Option (Order × Db) → Db → Db
view_of none last = last
view_of (some (o, db)) last = db

-- `meanwhile` is what the second and later attempts of `_locate` read, one database for each delay,
-- where the first reads the given one: other writers commit while the stage sleeps.
module _ (fetch : ℕ → Option (Option (List BrokerOrder))) (divide : ℤ → ℕ → ℤ)
    (meanwhile : Db → List Db) where
  abbrev pub views : Db → List Db
  views db = db ∷ meanwhile db

  -- The database that the transaction works on, and that a rollback leaves.
  abbrev pub base : TradeUpdate → Db → Db
  base u db = view_of (locate fetch divide u (views db)) (last_view db (meanwhile db))

  unfoldable pub on_trade_update : TradeUpdate → Db → List FillEvent × Db
  unfolding process locate
  on_trade_update u db =
      settle_update u (base u db) (process fetch divide u (views db) (last_view db (meanwhile db)))

  unfoldable pub handle_decoded : Option TradeUpdate → Subscriber → Subscriber
  unfolding on_trade_update
  handle_decoded none s = s
  handle_decoded (some u) s =
      let (events, db) = on_trade_update u s.db in
      record s { db = db; published = s.published ++ events }

  -- One round of `process` for the message that it takes off the queue.
  abbrev pub handle_message : RawMessage → List RawMessage → Subscriber → Subscriber
  handle_message raw rest s = handle_decoded (decode raw) (record s { queue = rest })

  -- The rounds of `process` until the queue is empty.
  abbrev pub process_queue : List RawMessage → Subscriber → Subscriber
  process_queue [] s = s
  process_queue (raw ∷ rest) s = process_queue rest (handle_message raw rest s)
