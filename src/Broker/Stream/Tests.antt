-- ===== src/Broker/Stream/Tests.antt =====
-- A feed of bars with a message every minute that goes quiet, where Redis loses a write.
use roi_gen.Base.{arith, ℕ, ◌+◌, ◌*◌, ◌<◌, ◌≡◌, refl, true, false, none, some, List, [], ◌∷◌, ◌-ℤ◌}
use roi_gen.Stage.FeedHealth.{new_feed_health, poll, read_level}
use roi_gen.Broker.Stream.{
  done, failed, unanswered, staleness_floor, start, mark_alive, watchdog, on_disconnect,
  write_feed_health, set_health, found_stale,
}
use roi_gen.Broker.Stream.Heard.{
  FeedEvent, message, round, disconnect, Onward, run, last_heard, run-Heard,
}

abbrev events : List FeedEvent
events =
    round 5000000 done done
    ∷ message 60000000 done failed
    ∷ disconnect
    ∷ round 65000000 done unanswered
    ∷ message 120000000 done done
    ∷ round 235000000 done done
    ∷ []

floor_test :
    (staleness_floor 30000000 false false ≡ 120000000)
    × (staleness_floor 30000000 true false ≡ 30000000)
    × (staleness_floor 0 false true ≡ 5000000)
unfolding staleness_floor
floor_test = (refl, refl, refl)

run-Heard_example :
    (m : ℕ) × (last_heard none events ≡ some m)
    × (350000000 < m + staleness_floor 30000000 false false * 2)
unfolding run last_heard mark_alive watchdog write_feed_health set_health found_stale on_disconnect
    start staleness_floor poll read_level ◌-ℤ◌ Onward
run-Heard_example =
    run-Heard 30000000 false false true 1000000 30000000 0 events 350000000 new_feed_health
      (omega arith, tt) refl
