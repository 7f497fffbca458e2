-- ===== src/Execution/Subscriber/Tests.antt =====
-- Two messages that arrive before the release: one that does not decode, and a fill.
use roi_gen.Base.{◌≡◌, ◌++◌, arith, true, false, List, [], ◌∷◌}
use roi_gen.Execution.Synthesis.Ledger.{LedgersAgree}
use roi_gen.Execution.TradeUpdates.Tests.{
  before_fill, last_fill, fetch_legs, floor_divide, before_fill-LedgersAgree,
}
use roi_gen.Execution.Subscriber.{
  RawMessage, Subscriber, new_subscriber, release, enqueue_message, process_queue,
}
use roi_gen.Execution.Subscriber.InOrder.{Reached, begun, received, released, subscriber-Delivers}
use roi_gen.Execution.Subscriber.Delivered.{Delivered}
use roi_gen.Execution.Subscriber.Handling.{OthersAgree}
use roi_gen.Models.Rows.{Db}

-- One retry, before which nothing is committed.
abbrev meanwhile : Db → List Db
meanwhile db = db ∷ []

meanwhile-OthersAgree : OthersAgree fetch_legs floor_divide meanwhile
meanwhile-OthersAgree db v = ((v, λ p. omega arith), tt)

abbrev messages : List RawMessage
messages = RawMessage.bad_json ∷ RawMessage.update last_fill ∷ []

abbrev waiting : Subscriber
waiting = release (
    enqueue_message (RawMessage.update last_fill)
      (enqueue_message RawMessage.bad_json (new_subscriber before_fill)))

waiting-Reached : Reached fetch_legs floor_divide meanwhile messages [] waiting
waiting-Reached = released (
    received (RawMessage.update last_fill)
      (received RawMessage.bad_json (begun before_fill before_fill-LedgersAgree)))

subscriber-Delivers_example :
    let s' = process_queue fetch_legs floor_divide meanwhile messages waiting in
    LedgersAgree before_fill
    × (messages ≡ [] ++ messages)
    × (true ≡ false → ◌≡◌ {A = List RawMessage} [] [])
    × (true ≡ true
        → Reached fetch_legs floor_divide meanwhile messages messages s'
          × (s'.queue ≡ [])
          × LedgersAgree s'.db
          × Delivered fetch_legs floor_divide meanwhile messages waiting s')
subscriber-Delivers_example =
    subscriber-Delivers fetch_legs floor_divide meanwhile messages [] waiting meanwhile-OthersAgree
      waiting-Reached
