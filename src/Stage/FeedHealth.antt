-- ===== src/Stage/FeedHealth.antt =====
-- The health of the market data feed, backend/app/engine/feed_health.py: what a poll makes of the
-- health key. The decoded text of the key is an argument; instants and windows are in microseconds.
use roi_gen.Base.{
  ℕ, Bool, true, false, Option, none, some, List, [], ◌∷◌, ℤ, pos, ◌-ℤ◌, ltb_ℤ, if◌then◌else◌,
}
pub mod Fresh

-- The field `at`: not a text, a text that is no instant, an instant without a zone, or one with it.
pub data Stamp : Type 0 where
  not_a_text unreadable naive : Stamp
  at : ℕ → Stamp

pub record HealthDocument : Type 0 where
  pub status_is_ok : Bool
  pub stamped_at : Stamp
  pub window : Option ℤ

-- What the key holds: Redis raises, no key, no JSON, JSON that is no object, or an object.
pub data HealthKey : Type 0 where
  unreachable absent undecodable not_an_object : HealthKey
  document : HealthDocument → HealthKey

-- The age test; `none` is an exception, here the difference of a naive and an aware instant.
abbrev pub is_too_old : ℕ → Stamp → ℤ → Option Bool
is_too_old now Stamp.not_a_text window = some true
is_too_old now Stamp.unreadable window = some true
is_too_old now Stamp.naive window = none
is_too_old now (Stamp.at stamped) window = some (ltb_ℤ window (pos now -ℤ pos stamped))

abbrev pub is_outdated : ℕ → Stamp → Option ℤ → Option Bool
is_outdated now stamped none = some true
is_outdated now stamped (some window) = is_too_old now stamped window

-- Whether the key says that the feed is stale.
unfoldable pub read_level : ℕ → HealthKey → Option Bool
read_level now unreachable = none
read_level now absent = some true
read_level now undecodable = some true
read_level now not_an_object = none
read_level now (document d) =
    if d.status_is_ok then is_outdated now d.stamped_at d.window else some true

pub record FeedHealth : Type 0 where
  pub stale : Bool

abbrev pub new_feed_health : FeedHealth
new_feed_health = record { stale = true }

-- An exception is a health unknown.
abbrev pub or_stale : Option Bool → Bool
or_stale none = true
or_stale (some stale) = stale

-- One round of `run`.
unfoldable pub poll : ℕ → HealthKey → FeedHealth → FeedHealth
unfolding read_level
poll now key health = record health { stale = or_stale (read_level now key) }

unfoldable pub poll_all : List (ℕ × HealthKey) → FeedHealth → FeedHealth
unfolding poll
poll_all [] health = health
poll_all ((now, key) ∷ rest) health = poll_all rest (poll now key health)
