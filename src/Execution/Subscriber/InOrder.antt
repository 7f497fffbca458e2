-- ===== src/Execution/Subscriber/InOrder.antt =====
-- Messages are handled once each, in the order of their arrival, and none before the release.
use mathlib.Core.List.{append_assoc, append-nil}
use roi_gen.Base.{
  ℕ, ◌≡◌, refl, sym, ap, ◌∙◌, subst, true, false, Option, none, some, List, [], ◌∷◌, ◌++◌, ℤ,
}
use roi_gen.Models.Rows.{Db}
use roi_gen.Execution.State.{BrokerOrder}
use roi_gen.Execution.Synthesis.Ledger.{LedgersAgree}
use roi_gen.Execution.TradeUpdates.{TradeUpdate}
use roi_gen.Execution.Subscriber.{
  RawMessage, decode, Subscriber, new_subscriber, release, enqueue_message, handle_decoded,
  handle_message, process_queue,
}
use roi_gen.Execution.Subscriber.Handling.{OthersAgree}
use roi_gen.Execution.Subscriber.Delivered.{
  Delivered, handle_message-Steps, process_queue-Delivered,
}

module _ (fetch : ℕ → Option (Option (List BrokerOrder))) (divide : ℤ → ℕ → ℤ)
    (meanwhile : Db → List Db) where
  handled-queue :
      (found : Option TradeUpdate) (s : Subscriber)
      → ((handle_decoded fetch divide meanwhile found s).queue ≡ s.queue)
        × ((handle_decoded fetch divide meanwhile found s).ready ≡ s.ready)
  unfolding handle_decoded
  handled-queue none s = (refl, refl)
  handled-queue (some u) s = (refl, refl)

  -- The states that arrivals, the release, the rounds of `process` and the commits of other writers
  -- reach, with the messages received and those handled, each in order.
  pub data Reached : List RawMessage → List RawMessage → Subscriber → Type 0 where
    begun : (db : Db) → LedgersAgree db → Reached [] [] (new_subscriber db)
    received :
        {rs ts : List RawMessage} {s : Subscriber} (raw : RawMessage)
        → Reached rs ts s
        → Reached (rs ++ (raw ∷ [])) ts (enqueue_message raw s)
    released :
        {rs ts : List RawMessage} {s : Subscriber} → Reached rs ts s → Reached rs ts (release s)
    elsewhere :
        {rs ts : List RawMessage} {s : Subscriber} (db : Db)
        → LedgersAgree db
        → Reached rs ts s
        → Reached rs ts (record s { db = db })
    handled :
        {rs ts : List RawMessage} {s : Subscriber} (raw : RawMessage) (rest : List RawMessage)
        → s.queue ≡ raw ∷ rest
        → s.ready ≡ true
        → Reached rs ts s
        → Reached rs (ts ++ (raw ∷ [])) (handle_message fetch divide meanwhile raw rest s)

  pub record IsInOrder (rs ts : List RawMessage) (s : Subscriber) : Type 0 where
    pub agree : LedgersAgree s.db
    pub once : rs ≡ ts ++ s.queue
    pub held_back : s.ready ≡ false → ts ≡ []

  pub Reached-IsInOrder :
      {rs ts : List RawMessage} {s : Subscriber}
      → OthersAgree fetch divide meanwhile
      → Reached rs ts s
      → IsInOrder rs ts s
  Reached-IsInOrder others (begun db v) = record { agree = v; once = refl; held_back = λ e. refl }
  Reached-IsInOrder others (received {ts = ts} {s = s} raw r) =
      let h = Reached-IsInOrder others r in
      record {
        agree = h.agree;
        once = ap (λ xs. xs ++ (raw ∷ [])) h.once ∙ append_assoc ts s.queue (raw ∷ []);
        held_back = h.held_back;
      }
  Reached-IsInOrder others (released r) =
      let h = Reached-IsInOrder others r in
      record { agree = h.agree; once = h.once; held_back = λ e. absurd (cc e) }
  Reached-IsInOrder others (elsewhere db v r) =
      let h = Reached-IsInOrder others r in
      record { agree = v; once = h.once; held_back = h.held_back }
  Reached-IsInOrder others (handled {ts = ts} {s = s} raw rest e on r) =
      let h = Reached-IsInOrder others r in
      let taken = record s { queue = rest } in
      let (queue, ready) = handled-queue (decode raw) taken in
      record {
        agree = (handle_message-Steps fetch divide meanwhile raw rest s others h.agree).0.0;
        once =
            h.once
            ∙ (ap (λ q. ts ++ q) e
                ∙ (sym (append_assoc ts (raw ∷ []) rest)
                    ∙ ap (λ q. (ts ++ (raw ∷ [])) ++ q) (sym queue)));
        held_back = λ off. absurd (cc (off, ready, on));
      }

  -- The rounds until the queue is empty.
  process_queue-Reached :
      (rs ts q : List RawMessage) (s : Subscriber)
      → Reached rs ts s
      → s.queue ≡ q
      → s.ready ≡ true
      → Reached rs (ts ++ q) (process_queue fetch divide meanwhile q s)
        × ((process_queue fetch divide meanwhile q s).queue ≡ [])
  process_queue-Reached rs ts [] s r e on =
      (subst (λ xs. Reached rs xs s) (sym (append-nil ts)) r, e)
  process_queue-Reached rs ts (raw ∷ rest) s r e on =
      let (queue, ready) = handled-queue (decode raw) (record s { queue = rest }) in
      let (reached, emptied) =
        process_queue-Reached rs (ts ++ (raw ∷ [])) rest
          (handle_message fetch divide meanwhile raw rest s) (handled raw rest e on r) queue
          (ready ∙ on) in
      (
        subst (λ xs. Reached rs xs (process_queue fetch divide meanwhile (raw ∷ rest) s))
            (append_assoc ts (raw ∷ []) rest) reached,
        emptied,
      )

  -- Where other writers keep the ledgers in agreement and take no recorded quantity back: in every
  -- state that the subscriber reaches, the messages received are those handled, in the order of
  -- their arrival and once each, followed by those that wait, and the lot tables agree with the fill
  -- rows. Before the release nothing has been handled. After it, the rounds of `process` empty the
  -- queue, and the state they reach shows for each waiting update whose order's row is found and whose
  -- transaction commits: the row's recorded quantity is at least what the broker has reported
  -- filled, or where it was for a redelivered execution, and the fill event that the transaction made
  -- has been published.
  pub subscriber-Delivers :
      (rs ts : List RawMessage) (s : Subscriber)
      → OthersAgree fetch divide meanwhile
      → Reached rs ts s
      → let s' = process_queue fetch divide meanwhile s.queue s in
        LedgersAgree s.db
        × (rs ≡ ts ++ s.queue)
        × (s.ready ≡ false → ts ≡ [])
        × (s.ready ≡ true
            → Reached rs rs s'
              × (s'.queue ≡ [])
              × LedgersAgree s'.db
              × Delivered fetch divide meanwhile s.queue s s')
  subscriber-Delivers rs ts s others r =
      let h = Reached-IsInOrder others r in
      (
        h.agree,
        h.once,
        h.held_back,
        λ on.
            let (reached, emptied) = process_queue-Reached rs ts s.queue s r refl on in
            let all =
              subst (λ xs. Reached rs xs (process_queue fetch divide meanwhile s.queue s))
                (sym h.once) reached in
            (
              all,
              emptied,
              (Reached-IsInOrder others all).agree,
              process_queue-Delivered fetch divide meanwhile s.queue s others h.agree,
            ),
      )
