-- ===== src/Broker/Stream.antt =====
-- The market data consumer of backend/app/brokers/alpaca/streams.py, less the socket: the clock of
-- its staleness, its watchdog, the health key that it writes, and the backoff of the supervisor it
-- extends. An instant or a time span is in microseconds, and the event loop's clock and the wall
-- clock are read as one. Log lines and the publication of a normalized message are left out.
use roi_gen.Base.{
  ℕ, ◌+◌, ◌*◌, ◌/◌, min, Bool, true, false, Option, none, some, List, [], ◌∷◌, ◌++◌, pos, ltb, leb,
  if◌then◌else◌, ◌&&◌, ◌||◌, not,
}
use roi_gen.Stage.FeedHealth.{Stamp, HealthDocument, HealthKey}
pub mod Heard
mod Backed
mod Honest
mod Tests

abbrev feed_health_refresh : ℕ
feed_health_refresh = 1000000

abbrev bar_interval : ℕ
bar_interval = 60000000

abbrev min_staleness : ℕ
min_staleness = 5000000

abbrev larger : ℕ → ℕ → ℕ
larger a b = if ltb a b then b else a

-- A requested window that is negative is given as 0, which the floor treats alike.
unfoldable pub staleness_floor : ℕ → Bool → Bool → ℕ
staleness_floor requested quotes trades =
    if quotes || trades
    then larger requested min_staleness
    else if leb (bar_interval * 2) requested
    then requested
    else bar_interval * 2

abbrev feed_health_ttl : ℕ → ℕ
feed_health_ttl staleness = larger 1 (staleness * 2 / 1000000)

-- What becomes of a call of Redis: it is done; it fails; or it is done and the answer is lost, which
-- the caller sees as a failure.
pub data RedisAnswer : Type 0 where
  done failed unanswered : RedisAnswer

pub record KeyValue : Type 0 where
  pub payload : HealthDocument
  pub expires_at : ℕ

pub data FeedStatus : Type 0 where
  feed_ok feed_stale : FeedStatus

pub record Consumer : Type 0 where
  pub staleness_seconds : ℕ
  pub has_key : Bool
  pub backoff_base : ℕ
  pub backoff_cap : ℕ
  pub backoff : ℕ
  pub last_msg_at : Option ℕ
  pub is_stale : Bool
  pub seen_data : Bool
  pub last_health_write : Option ℕ
  -- What the other side sees: the key in Redis and the transitions that were published.
  pub key : Option KeyValue
  pub transitions : List FeedStatus

abbrev pub new_consumer : ℕ → Bool → Bool → Bool → ℕ → ℕ → Consumer
new_consumer requested quotes trades has_key base cap = record {
  staleness_seconds = staleness_floor requested quotes trades;
  has_key = has_key;
  backoff_base = base;
  backoff_cap = cap;
  backoff = base;
  last_msg_at = none;
  is_stale = false;
  seen_data = false;
  last_health_write = none;
  key = none;
  transitions = [];
}

abbrev reset_backoff : Consumer → Consumer
reset_backoff c = record c { backoff = c.backoff_base }

unfoldable pub start : ℕ → Consumer → Consumer
start now c = reset_backoff (record c { last_msg_at = some now })

unfoldable pub on_disconnect : Consumer → Consumer
on_disconnect c = record c { backoff = min (c.backoff * 2) c.backoff_cap }

abbrev health_value : ℕ → Bool → Consumer → KeyValue
health_value now ok c = record {
  payload = record {
    status_is_ok = ok;
    stamped_at = Stamp.at now;
    window = some (pos c.staleness_seconds);
  };
  expires_at = now + feed_health_ttl c.staleness_seconds * 1000000;
}

-- `SETEX`, after which the throttle advances only if the call is answered.
unfoldable pub set_health : ℕ → Bool → RedisAnswer → Consumer → Consumer
set_health now ok done c = record c {
  key = some (health_value now ok c);
  last_health_write = some now;
}
set_health now ok failed c = c
set_health now ok unanswered c = record c { key = some (health_value now ok c) }

abbrev throttled : ℕ → Option ℕ → Bool
throttled now none = false
throttled now (some written) = ltb now (written + feed_health_refresh)

unfoldable pub write_feed_health : ℕ → Bool → Bool → RedisAnswer → Consumer → Consumer
write_feed_health now ok force answer c =
    if not c.has_key || (not force && throttled now c.last_health_write)
    then c
    else set_health now ok answer c

abbrev pub publish_feed_status : FeedStatus → RedisAnswer → Consumer → Consumer
publish_feed_status status failed c = c
publish_feed_status status _ c = record c { transitions = c.transitions ++ (status ∷ []) }

-- A message; `told` answers the publication of a transition, `answer` the write of the key.
unfoldable pub mark_alive : ℕ → RedisAnswer → RedisAnswer → Consumer → Consumer
mark_alive now told answer c =
    let alive = reset_backoff (record c { last_msg_at = some now; seen_data = true }) in
    if c.is_stale
    then write_feed_health now true true answer
        (publish_feed_status feed_ok told (record alive { is_stale = false }))
    else write_feed_health now true false answer alive

unfoldable pub found_stale : ℕ → RedisAnswer → RedisAnswer → Consumer → Consumer
found_stale now told answer c =
    if c.is_stale
    then write_feed_health now false false answer c
    else write_feed_health now false true answer
        (publish_feed_status feed_stale told (record c { is_stale = true }))

abbrev pub check_since : ℕ → RedisAnswer → RedisAnswer → Option ℕ → Consumer → Consumer
check_since now told answer none c = record c { last_msg_at = some now }
check_since now told answer (some last) c =
    if leb (last + c.staleness_seconds) now
    then found_stale now told answer c
    else if c.seen_data
    then write_feed_health now true false answer c
    else c

-- One round of `_watchdog_loop`.
unfoldable pub watchdog : ℕ → RedisAnswer → RedisAnswer → Consumer → Consumer
watchdog now told answer c = check_since now told answer c.last_msg_at c

-- What a reader of the key finds.
abbrev pub read_key : ℕ → Option KeyValue → HealthKey
read_key now none = HealthKey.absent
read_key now (some value) =
    if leb value.expires_at now then HealthKey.absent else HealthKey.document value.payload
