-- ===== src/Broker/Stream/Honest.antt =====
-- The consumer of backend/app/brokers/alpaca/streams.py between its steps: what it knows of the last
-- message, and what its key says.
use roi_gen.Base.{ℕ, ◌+◌, ◌≤◌, ◌<◌, ◌≡◌, refl, ◌∙◌, true, false, Option, none, some, arith, leb}
use roi_gen.Broker.Stream.{
  RedisAnswer, Consumer, on_disconnect, mark_alive, watchdog, feed_ok, check_since,
}
use roi_gen.Broker.Stream.Backed.{
  Backed, Backed-later, in_either, kept, Writes, write-Writes, flagged_write, found_stale-Writes,
}

-- The end of the window that opened with the last message; 0 where there was none.
abbrev pub window_end : ℕ → Option ℕ → ℕ
window_end w none = 0
window_end w (some m) = m + w

pub record IsHonest (w : ℕ) (heard : Option ℕ) (c : Consumer) : Type 0 where
  pub window_same : c.staleness_seconds ≡ w
  pub window_is_open : 0 < c.staleness_seconds
  pub no_news : heard ≡ none → c.seen_data ≡ false
  pub news : (m : ℕ) → heard ≡ some m → c.last_msg_at ≡ some m
  pub backed : Backed c.staleness_seconds (window_end c.staleness_seconds heard) c.key

module _ (w : ℕ) where
  Writes-IsHonest :
      (heard : Option ℕ) (c c' : Consumer)
      → IsHonest w heard c
      → Writes (window_end c.staleness_seconds heard) c c'
      → IsHonest w heard c'
  Writes-IsHonest heard c c' g ((window_kept, seen_kept, clock_kept), b) = record {
    window_same = window_kept ∙ g.window_same;
    window_is_open = rw window_kept g.window_is_open;
    no_news = λ e. seen_kept ∙ g.no_news e;
    news = λ m e. clock_kept ∙ g.news m e;
    backed = rw window_kept b;
  }

  pub mark_alive-IsHonest :
      (now : ℕ) (told answer : RedisAnswer) (heard : Option ℕ) (c : Consumer)
      → window_end c.staleness_seconds heard ≤ now + c.staleness_seconds
      → IsHonest w heard c
      → IsHonest w (some now) (mark_alive now told answer c)
  unfolding mark_alive
  mark_alive-IsHonest now told answer heard c h g =
      let alive = record c { backoff = c.backoff_base; last_msg_at = some now; seen_data = true } in
      let soon : now < now + c.staleness_seconds =
        let wide : 0 < c.staleness_seconds = g.window_is_open in omega arith in
      let backed : Backed c.staleness_seconds (now + c.staleness_seconds) c.key =
        Backed-later c.staleness_seconds _ _ c.key h g.backed in
      let honest : IsHonest w (some now) alive = record {
        window_same = g.window_same;
        window_is_open = g.window_is_open;
        no_news = λ e. absurd (cc e);
        news = λ m e. e;
        backed = backed;
      } in
      Writes-IsHonest (some now) alive _ honest (
        in_either (Writes (now + c.staleness_seconds) alive) c.is_stale
          (λ e.
            flagged_write now true (now + c.staleness_seconds) told feed_ok false answer alive
              (λ f. soon) backed)
          (λ e.
            write-Writes now true (now + c.staleness_seconds) false answer alive (λ f. soon)
              backed))

  in_window :
      (now last : ℕ) (heard : Option ℕ) (c : Consumer)
      → IsHonest w heard c
      → c.last_msg_at ≡ some last
      → leb (last + c.staleness_seconds) now ≡ false
      → c.seen_data ≡ true
      → now < window_end c.staleness_seconds heard
  in_window now last none c g e fresh seen =
      let blind : c.seen_data ≡ false = g.no_news refl in absurd (cc (blind, seen))
  in_window now last (some m) c g e fresh seen =
      let known : c.last_msg_at ≡ some m = g.news m refl in
      let same : last ≡ m = cc (e, known) in ground (arith, fresh, same)

  check_since-IsHonest :
      (now : ℕ) (told answer : RedisAnswer) (last heard : Option ℕ) (c : Consumer)
      → IsHonest w heard c
      → c.last_msg_at ≡ last
      → IsHonest w heard (check_since now told answer last c)
  check_since-IsHonest now told answer none none c g e = record {
    window_same = g.window_same;
    window_is_open = g.window_is_open;
    no_news = g.no_news;
    news = λ m f. absurd (cc f);
    backed = g.backed;
  }
  check_since-IsHonest now told answer none (some m) c g e =
      let known : c.last_msg_at ≡ some m = g.news m refl in absurd (cc (known, e))
  check_since-IsHonest now told answer (some last) heard c g e =
      let end = window_end c.staleness_seconds heard in
      Writes-IsHonest heard c _ g (
        in_either (Writes end c) _ (λ stale. found_stale-Writes now end told answer c g.backed)
          (λ fresh.
            in_either (Writes end c) c.seen_data
              (λ seen.
                write-Writes now true end false answer c
                  (λ f. in_window now last heard c g e fresh seen) g.backed)
              (λ unseen. (kept c, g.backed))))

  pub watchdog-IsHonest :
      (now : ℕ) (told answer : RedisAnswer) (heard : Option ℕ) (c : Consumer)
      → IsHonest w heard c
      → IsHonest w heard (watchdog now told answer c)
  unfolding watchdog
  watchdog-IsHonest now told answer heard c g =
      check_since-IsHonest now told answer c.last_msg_at heard c g refl

  pub on_disconnect-IsHonest :
      (heard : Option ℕ) (c : Consumer) → IsHonest w heard c → IsHonest w heard (on_disconnect c)
  unfolding on_disconnect
  on_disconnect-IsHonest heard c g = record {
    window_same = g.window_same;
    window_is_open = g.window_is_open;
    no_news = g.no_news;
    news = g.news;
    backed = g.backed;
  }
