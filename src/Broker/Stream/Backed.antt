-- ===== src/Broker/Stream/Backed.antt =====
-- What the writes of the health key, `_write_feed_health` of backend/app/brokers/alpaca/streams.py,
-- leave in it.
use roi_gen.Base.{
  ℕ, ◌≤◌, ◌<◌, ◌≡◌, refl, Bool, true, false, Option, none, some, pos, arith, if◌then◌else◌,
}
use roi_gen.Stage.FeedHealth.{Stamp}
use roi_gen.Broker.Stream.{
  RedisAnswer, done, failed, unanswered, KeyValue, Consumer, set_health, write_feed_health,
  found_stale, FeedStatus, feed_stale, publish_feed_status,
}

-- The key was stamped with the window, and before that end if it says ok.
abbrev pub Backed : ℕ → ℕ → Option KeyValue → Type 0
Backed w end none = Unit
Backed w end (some value) =
    (t : ℕ) × (value.payload.stamped_at ≡ Stamp.at t)
    × (value.payload.window ≡ some (pos w))
    × (value.payload.status_is_ok ≡ true → t < end)

pub Backed-later :
    (w end end' : ℕ) (key : Option KeyValue) → end ≤ end' → Backed w end key → Backed w end' key
Backed-later w end end' none h b = b
Backed-later w end end' (some value) h (t, at, win, ok) =
    (t, at, win, λ e. let before : t < end = ok e in omega arith)

pub in_either :
    (P : Consumer → Type 0) (b : Bool) {x y : Consumer}
    → (b ≡ true → P x)
    → (b ≡ false → P y)
    → P (if b then x else y)
in_either P true f g = f refl
in_either P false f g = g refl

-- What the writes of the key leave as it was.
abbrev pub Keeps : Consumer → Consumer → Type 0
Keeps c c' =
    (c'.staleness_seconds ≡ c.staleness_seconds)
    × (c'.seen_data ≡ c.seen_data)
    × (c'.last_msg_at ≡ c.last_msg_at)

pub kept : (c : Consumer) → Keeps c c
kept c = (refl, refl, refl)

-- A step that keeps those, and a key that is backed at some end.
abbrev pub Writes : ℕ → Consumer → Consumer → Type 0
Writes end c c' = Keeps c c' × Backed c.staleness_seconds end c'.key

module _ (now : ℕ) (ok : Bool) (end : ℕ) where
  set_health-Writes :
      (answer : RedisAnswer) (c : Consumer)
      → (ok ≡ true → now < end)
      → Backed c.staleness_seconds end c.key
      → Writes end c (set_health now ok answer c)
  unfolding set_health
  set_health-Writes done c h b = ((refl, refl, refl), (now, refl, refl, h))
  set_health-Writes failed c h b = (kept c, b)
  set_health-Writes unanswered c h b = ((refl, refl, refl), (now, refl, refl, h))

  pub write-Writes :
      (force : Bool) (answer : RedisAnswer) (c : Consumer)
      → (ok ≡ true → now < end)
      → Backed c.staleness_seconds end c.key
      → Writes end c (write_feed_health now ok force answer c)
  unfolding write_feed_health
  write-Writes force answer c h b =
      in_either (Writes end c) _ (λ e. (kept c, b)) (λ e. set_health-Writes answer c h b)

  pub flagged_write :
      (told : RedisAnswer) (status : FeedStatus) (flag : Bool) (answer : RedisAnswer) (c : Consumer)
      → (ok ≡ true → now < end)
      → Backed c.staleness_seconds end c.key
      → Writes end c (
          write_feed_health now ok true answer
            (publish_feed_status status told (record c { is_stale = flag })))
  flagged_write done status flag answer c h b = write-Writes true answer _ h b
  flagged_write failed status flag answer c h b = write-Writes true answer _ h b
  flagged_write unanswered status flag answer c h b = write-Writes true answer _ h b

pub found_stale-Writes :
    (now end : ℕ) (told answer : RedisAnswer) (c : Consumer)
    → Backed c.staleness_seconds end c.key
    → Writes end c (found_stale now told answer c)
unfolding found_stale
found_stale-Writes now end told answer c b =
    in_either (Writes end c) _
      (λ e. write-Writes now false end false answer c (λ f. absurd (cc f)) b)
      (λ e. flagged_write now false end told feed_stale true answer c (λ f. absurd (cc f)) b)
