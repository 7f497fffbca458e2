-- ===== src/Broker/Stream/Heard.antt =====
-- What the health key says is backed by messages that arrived: the consumer of
-- backend/app/brokers/alpaca/streams.py with the engine's poll of its key.
use roi_gen.Base.{
  ℕ, ◌+◌, ◌*◌, ◌≤◌, ◌<◌, ◌≡◌, refl, sym, ap, subst, ◌∙◌, Bool, false, Option, none, some, List, [],
  ◌∷◌, pos, ◌-ℤ◌, ltb_ℤ, arith, leb, Bool-cases, inl, inr,
}
use roi_gen.Stage.FeedHealth.{Stamp, HealthDocument, HealthKey, document, FeedHealth, poll}
use roi_gen.Stage.FeedHealth.Fresh.{IsFresh, level-IsFresh}
use roi_gen.Broker.Stream.{
  RedisAnswer, KeyValue, Consumer, staleness_floor, new_consumer, start, on_disconnect, mark_alive,
  watchdog, read_key,
}
use roi_gen.Broker.Stream.Backed.{Backed}
use roi_gen.Broker.Stream.Honest.{
  window_end, IsHonest, mark_alive-IsHonest, watchdog-IsHonest, on_disconnect-IsHonest,
}

-- What happens to a consumer: a message or a round of the watchdog, with Redis's answers to the
-- publication and the write that it may make, or the loss of the stream.
pub data FeedEvent : Type 0 where
  message round : ℕ → RedisAnswer → RedisAnswer → FeedEvent
  disconnect : FeedEvent

abbrev pub on_feed_event : FeedEvent → Consumer → Consumer
on_feed_event (message now told answer) c = mark_alive now told answer c
on_feed_event (round now told answer) c = watchdog now told answer c
on_feed_event disconnect c = on_disconnect c

unfoldable pub run : List FeedEvent → Consumer → Consumer
run [] c = c
run (e ∷ es) c = run es (on_feed_event e c)

-- The instant of the last message.
unfoldable pub last_heard : Option ℕ → List FeedEvent → Option ℕ
last_heard heard [] = heard
last_heard heard (message now told answer ∷ es) = last_heard (some now) es
last_heard heard (round now told answer ∷ es) = last_heard heard es
last_heard heard (disconnect ∷ es) = last_heard heard es

-- No message is earlier than the one before it.
unfoldable pub Onward : Option ℕ → List FeedEvent → Type 0
Onward heard [] = Unit
Onward none (message now told answer ∷ es) = Onward (some now) es
Onward (some m) (message now told answer ∷ es) = (m ≤ now) × Onward (some now) es
Onward heard (round now told answer ∷ es) = Onward heard es
Onward heard (disconnect ∷ es) = Onward heard es

run-IsHonest :
    (w : ℕ) (es : List FeedEvent) (heard : Option ℕ) (c : Consumer)
    → Onward heard es
    → IsHonest w heard c
    → IsHonest w (last_heard heard es) (run es c)
unfolding run last_heard Onward
run-IsHonest w [] heard c o g = g
run-IsHonest w (message now told answer ∷ es) none c o g =
    run-IsHonest w es (some now) _ o (mark_alive-IsHonest w now told answer none c (omega arith) g)
run-IsHonest w (message now told answer ∷ es) (some m) c (h, o) g =
    run-IsHonest w es (some now) _ o
      (mark_alive-IsHonest w now told answer (some m) c (omega arith) g)
run-IsHonest w (round now told answer ∷ es) heard c o g =
    run-IsHonest w es heard _ o (watchdog-IsHonest w now told answer heard c g)
run-IsHonest w (disconnect ∷ es) heard c o g =
    run-IsHonest w es heard _ o (on_disconnect-IsHonest w heard c g)

ended :
    (heard : Option ℕ) (v w now t : ℕ)
    → v ≡ w
    → t < window_end v heard
    → now ≤ t + v
    → (m : ℕ) × (heard ≡ some m) × (now < m + w * 2)
ended none v w now t same before young = absurd (omega (arith, before))
ended (some m) v w now t same before young = (m, refl, omega (arith, before, young, same))

age_lem : (now t w : ℕ) → ltb_ℤ (pos w) (pos now -ℤ pos t) ≡ false → now ≤ t + w
unfolding ◌-ℤ◌
age_lem now t w h = ground (arith, h)

-- Where the reader finds the key fresh, it was stamped before the end, within the window from now.
payload_lem :
    (now : ℕ) (key : Option KeyValue) (w end : ℕ)
    → IsFresh now (read_key now key)
    → Backed w end key
    → (t : ℕ) × (t < end) × (now ≤ t + w)
payload_lem now none w end fresh b =
    let held : HealthKey.absent ≡ document fresh.found = fresh.held in absurd (cc held)
payload_lem now (some value) w end fresh (t, at, win, ok) =
    elim (Bool-cases (leb value.expires_at now)) [
      | inl gone ↦
          let held : HealthKey.absent ≡ document fresh.found = rw gone at fresh.held in
          absurd (cc held)
      | inr there ↦
          let held : document value.payload ≡ document fresh.found = rw there at fresh.held in
          let same : value.payload ≡ fresh.found = cc held in
          let when : Stamp.at t ≡ Stamp.at fresh.stamped =
            sym at ∙ ap (λ (d : HealthDocument). d.stamped_at) same ∙ fresh.instant in
          let long : some (pos w) ≡ some fresh.limit =
            sym win ∙ ap (λ (d : HealthDocument). d.window) same ∙ fresh.window in
          let stamp : t ≡ fresh.stamped = cc when in
          let limit : pos w ≡ fresh.limit = cc long in
          let young : now ≤ fresh.stamped + w =
            age_lem now fresh.stamped w (
              subst (λ l. ltb_ℤ l (pos now -ℤ pos fresh.stamped) ≡ false) (sym limit)
                fresh.young) in
          (
            t,
            ok (ap (λ (d : HealthDocument). d.status_is_ok) same ∙ fresh.ok),
            omega (arith, stamp, young),
          )
    ]

module _ (requested : ℕ) (quotes trades has_key : Bool) (base cap t0 : ℕ) where
  abbrev pub begun : Consumer
  begun = start t0 (new_consumer requested quotes trades has_key base cap)

  wide : 0 < staleness_floor requested quotes trades
  unfolding staleness_floor
  wide = ground arith

  begun-IsHonest : IsHonest (staleness_floor requested quotes trades) none begun
  unfolding start
  begun-IsHonest = record {
    window_same = refl;
    window_is_open = wide;
    no_news = λ e. refl;
    news = λ m e. absurd (cc e);
    backed = tt;
  }

  -- From a consumer that starts with no key in Redis, and where messages arrive in the order of
  -- time, the engine's poll of the key counts the feed as live only if a message has arrived
  -- within twice the staleness window, whatever Redis did with the writes of the key, whatever
  -- rounds the watchdog has made, and however often the stream was lost.
  pub run-Heard :
      (es : List FeedEvent) (now : ℕ) (health : FeedHealth)
      → Onward none es
      → (poll now (read_key now (run es begun).key) health).stale ≡ false
      → (m : ℕ) × (last_heard none es ≡ some m)
        × (now < m + staleness_floor requested quotes trades * 2)
  unfolding poll
  run-Heard es now health o h =
      let g =
        run-IsHonest (staleness_floor requested quotes trades) es none begun o begun-IsHonest in
      let fresh = level-IsFresh now (read_key now (run es begun).key) h in
      let (t, before, young) = payload_lem now (run es begun).key _ _ fresh g.backed in
      ended (last_heard none es) _ _ now t g.window_same before young
