-- ===== src/Execution/Subscriber/Delivered.antt =====
-- What the rounds of `process` of backend/app/engine/execution/trade_updates.py book and publish.
use mathlib.Core.List.{append_assoc, append-nil}
use roi_gen.Base.{
  ℕ, ◌≤◌, ◌≡◌, refl, sym, ap, ◌∙◌, Option, none, some, List, [], ◌∷◌, ◌++◌, ℤ, arith,
}
use roi_gen.Models.Rows.{Db}
use roi_gen.Execution.State.{BrokerOrder}
use roi_gen.Execution.Synthesis.{filled_by}
use roi_gen.Execution.Synthesis.Ledger.{LedgersAgree}
use roi_gen.Execution.TradeUpdates.{TradeUpdate, FillEvent}
use roi_gen.Execution.Subscriber.{
  RawMessage, decode, Subscriber, on_trade_update, handle_decoded, handle_message, process_queue,
}
use roi_gen.Execution.Subscriber.Handling.{Onward, OthersAgree, Booked, on_trade_update-Handled}

module _ (fetch : ℕ → Option (Option (List BrokerOrder))) (divide : ℤ → ℕ → ℤ)
    (meanwhile : Db → List Db) where
  -- The events published from one state to another.
  abbrev pub Publishes : Subscriber → Subscriber → List FillEvent → Type 0
  Publishes s s' events = s'.published ≡ s.published ++ events

  -- What handling a message leaves, and what it publishes.
  abbrev pub Steps : Subscriber → Subscriber → Type 0
  Steps s s' = Onward s.db s'.db × ((events : List FillEvent) × Publishes s s' events)

  decoded-Steps :
      (found : Option TradeUpdate) (s : Subscriber)
      → OthersAgree fetch divide meanwhile
      → LedgersAgree s.db
      → Steps s (handle_decoded fetch divide meanwhile found s)
  unfolding handle_decoded
  decoded-Steps none s others v = ((v, λ p. omega arith), ([], sym (append-nil s.published)))
  decoded-Steps (some u) s others v =
      let (onward, booked) = on_trade_update-Handled fetch divide meanwhile u s.db others v in
      (onward, ((on_trade_update fetch divide meanwhile u s.db).0, refl))

  pub handle_message-Steps :
      (raw : RawMessage) (rest : List RawMessage) (s : Subscriber)
      → OthersAgree fetch divide meanwhile
      → LedgersAgree s.db
      → Steps s (handle_message fetch divide meanwhile raw rest s)
  handle_message-Steps raw rest s others v =
      decoded-Steps (decode raw) (record s { queue = rest }) others v

  process_queue-Steps :
      (q : List RawMessage) (s : Subscriber)
      → OthersAgree fetch divide meanwhile
      → LedgersAgree s.db
      → Steps s (process_queue fetch divide meanwhile q s)
  process_queue-Steps [] s others v = ((v, λ p. omega arith), ([], sym (append-nil s.published)))
  process_queue-Steps (raw ∷ rest) s others v =
      let s' = handle_message fetch divide meanwhile raw rest s in
      let (one, (events, told)) = handle_message-Steps raw rest s others v in
      let (two, (events', told')) = process_queue-Steps rest s' others one.0 in
      (
        (two.0, λ p. omega (arith, one.1 p, two.1 p)),
        (
          events ++ events',
          told' ∙ (ap (λ xs. xs ++ events') told ∙ append_assoc s.published events events'),
        ),
      )

  -- At each message's turn, what its update's handling comes to, as it shows in the last state: the
  -- recorded quantities, and the events that were published.
  abbrev pub Delivered : List RawMessage → Subscriber → Subscriber → Type 0
  Delivered [] s last = Unit
  Delivered (raw ∷ rest) s last =
      ((u : TradeUpdate)
        → decode raw ≡ some u
        → (before events after : List FillEvent) × (last.published ≡ before ++ (events ++ after))
          × Booked fetch divide meanwhile u s.db events last.db)
      × Delivered rest (handle_message fetch divide meanwhile raw rest s) last

  -- What a message that decodes to an update publishes and books, up to a later state.
  message-Booked :
      (raw : RawMessage) (rest : List RawMessage) (s last : Subscriber) (u : TradeUpdate)
      → OthersAgree fetch divide meanwhile
      → LedgersAgree s.db
      → Steps (handle_message fetch divide meanwhile raw rest s) last
      → decode raw ≡ some u
      → (before events after : List FillEvent) × (last.published ≡ before ++ (events ++ after))
        × Booked fetch divide meanwhile u s.db events last.db
  unfolding handle_decoded
  message-Booked raw rest s last u others v (later, (more, told)) e =
      let (events, db) = on_trade_update fetch divide meanwhile u s.db in
      let (onward, booked) = on_trade_update-Handled fetch divide meanwhile u s.db others v in
      let published : last.published ≡ (s.published ++ events) ++ more = rw e at told in
      let grown : (p : ℕ) → filled_by p db.fills ≤ filled_by p last.db.fills = rw e at later.1 in
      (
        s.published,
        events,
        more,
        published ∙ append_assoc s.published events more,
        λ o w r found done.
            let (reached, same) = booked o w r found done in
            (omega (arith, reached, grown o.id), same),
      )

  pub process_queue-Delivered :
      (q : List RawMessage) (s : Subscriber)
      → OthersAgree fetch divide meanwhile
      → LedgersAgree s.db
      → Delivered q s (process_queue fetch divide meanwhile q s)
  process_queue-Delivered [] s others v = tt
  process_queue-Delivered (raw ∷ rest) s others v =
      let s' = handle_message fetch divide meanwhile raw rest s in
      let (one, told) = handle_message-Steps raw rest s others v in
      let later = process_queue-Steps rest s' others one.0 in
      (
        λ u e.
            message-Booked raw rest s (process_queue fetch divide meanwhile rest s') u others v
              later e,
        process_queue-Delivered rest s' others one.0,
      )
