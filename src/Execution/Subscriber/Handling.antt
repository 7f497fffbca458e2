-- ===== src/Execution/Subscriber/Handling.antt =====
-- What handling one update comes to, `on_trade_update` of
-- backend/app/engine/execution/trade_updates.py.
use roi_gen.Base.{
  ℕ, ◌≤◌, ◌≡◌, refl, Bool, ◌&&◌, Option, none, some, List, [], ◌∷◌, ℤ, arith, is_some, All,
  Bool-cases, Option-cases, inl, inr, subst, sym, ap, ◌∙◌,
}
use mathlib.Core.Option.{some-injective}
use roi_gen.Models.Enums.{EventSource}
use roi_gen.Models.Rows.{Order, Event, Db, has_unique_ids}
use roi_gen.Execution.State.{BrokerOrder}
use roi_gen.Execution.Lots.Absorbed.{parked_by-Plain}
use roi_gen.Execution.Synthesis.{filled_by, recorded}
use roi_gen.Execution.Synthesis.Ledger.{LedgersAgree}
use roi_gen.Execution.TradeUpdates.{TradeUpdate, FillEvent, fill_key}
use roi_gen.Execution.TradeUpdates.Process.{
  locate, lookup_order, process, process_located, orphaned,
}
use roi_gen.Execution.TradeUpdates.Gap.{own-cursor}
use roi_gen.Execution.TradeUpdates.Execution.{cursor_of}
use roi_gen.Execution.TradeUpdates.Surroundings.{SameLedgers, SameLedgers-agree}
use roi_gen.Execution.TradeUpdates.Stream.{process_located-Converges, orphaned-Same}
use roi_gen.Execution.Subscriber.{
  audit_error_row, events_of, settle_update, last_view, views, on_trade_update,
}

audit_error_row-Same : (u : TradeUpdate) (db : Db) → SameLedgers db (audit_error_row u db)
audit_error_row-Same u db = record {
  lots = refl;
  lot_closes = refl;
  fills = refl;
  parked = λ n.
      parked_by-Plain n EventSource.engine none none none
        (Event.trade_update_error u.order.broker_order_id u.order.client_order_id) db.event_log
        (λ k. refl, λ p known. refl);
  next_id = omega arith;
}

-- Ledgers that agree, with no recorded quantity fallen.
abbrev pub Onward : Db → Db → Type 0
Onward db db' = LedgersAgree db' × ((p : ℕ) → filled_by p db.fills ≤ filled_by p db'.fills)

same-Onward : (db v v' : Db) → Onward db v → SameLedgers v v' → Onward db v'
same-Onward db v v' (agree, grown) same =
    (SameLedgers-agree same agree, λ p. rw same.fills (grown p))

last-All : (P : Db → Type 0) (db : Db) (rest : List Db) → P db → All P rest → P (last_view db rest)
last-All P db [] h all = h
last-All P db (view ∷ rest) h (first, all) = last-All P view rest first all

module _ (fetch : ℕ → Option (Option (List BrokerOrder))) (divide : ℤ → ℕ → ℤ)
    (meanwhile : Db → List Db) where
  -- Other writers keep the ledgers in agreement and take no recorded quantity back.
  abbrev pub OthersAgree : Type 0
  OthersAgree = (db : Db) → LedgersAgree db → All (Onward db) (meanwhile db)

  located-All :
      (P : Db → Type 0) (u : TradeUpdate) (vs : List Db) (o : Order) (v : Db)
      → All P vs
      → locate fetch divide u vs ≡ some (o, v)
      → P v
  unfolding locate
  located-All P u [] o v all e = absurd (cc e)
  located-All P u (db ∷ vs) o v (first, all) e =
      elim (Option-cases (lookup_order fetch divide u db)) [
        | inl k ↦ located-All P u vs o v all (rw (k, locate) at e)
        | inr (o', k) ↦
            let here : some (o', db) ≡ some (o, v) = rw (k, locate) at e in
            let same : db ≡ v = cc here in subst P same first
      ]

  abbrev pub redelivered : Order → TradeUpdate → Db → Bool
  redelivered o u v = is_some u.qty && (is_some u.price && recorded (fill_key o u) v.fills)

  -- Of an update that is handled from `db` on: where a row is found for it and its transaction
  -- commits, the row's recorded quantity ends at least at the broker's cumulative quantity (where it
  -- was for a redelivered execution), and the fill event that the transaction made is published.
  abbrev pub Booked : TradeUpdate → Db → List FillEvent → Db → Type 0
  Booked u db events db' =
      (o : Order) (v : Db) (r : Option FillEvent × Db)
      → locate fetch divide u (views fetch divide meanwhile db) ≡ some (o, v)
      → process_located fetch divide o u v ≡ some r
      → (cursor_of divide o (redelivered o u v) u v.fills ≤ filled_by o.id db'.fills)
        × (events ≡ events_of r.0)

  abbrev pub Handled : TradeUpdate → Db → List FillEvent × Db → Type 0
  Handled u db (events, db') = Onward db db' × Booked u db events db'

  located-Booked :
      (u : TradeUpdate) (db v : Db) (o : Order) (events : List FillEvent) (db' : Db)
      → locate fetch divide u (views fetch divide meanwhile db) ≡ some (o, v)
      → ((r : Option FillEvent × Db)
          → process_located fetch divide o u v ≡ some r
          → (cursor_of divide o (redelivered o u v) u v.fills ≤ filled_by o.id db'.fills)
            × (events ≡ events_of r.0))
      → Booked u db events db'
  located-Booked u db v o events db' found h o' v' r found' e =
      let same : (o, v) ≡ (o', v') = some-injective _ _ (sym found ∙ found') in
      subst
        (λ (x : Order × Db).
          (r : Option FillEvent × Db)
          → process_located fetch divide x.0 u x.1 ≡ some r
          → (cursor_of divide x.0 (redelivered x.0 u x.1) u x.1.fills ≤ filled_by x.0.id db'.fills)
            × (events ≡ events_of r.0))
        same h r e

  settled-Handled :
      (u : TradeUpdate) (db v : Db) (o : Order)
      → LedgersAgree v
      → ((p : ℕ) → filled_by p db.fills ≤ filled_by p v.fills)
      → locate fetch divide u (views fetch divide meanwhile db) ≡ some (o, v)
      → Handled u db (settle_update u v (process_located fetch divide o u v))
  settled-Handled u db v o agree grown found =
      let (r, e, h, rows) = process_located-Converges fetch divide o u v agree in
      elim (Bool-cases (has_unique_ids r.1.orders)) [
        | inl fits ↦
            let commits : process_located fetch divide o u v ≡ some r = e ∙ (rw fits refl) in
            let own = own-cursor h in
            rw commits (
              (h.agree, λ p. ground (arith, h.cursor p, grown p)),
              located-Booked u db v o (events_of r.0) r.1 found (λ r' e'.
                  let one : r ≡ r' = some-injective _ _ (sym commits ∙ e') in
                  (omega (arith, own), ap (λ x. events_of x.0) one)),
            )
        | inr clash ↦
            let fails : process_located fetch divide o u v ≡ none = e ∙ (rw clash refl) in
            rw fails (
              same-Onward db v _ (agree, grown) (audit_error_row-Same u v),
              located-Booked u db v o [] (audit_error_row u v) found
                  (λ r' e'. absurd (cc (fails, e'))),
            )
      ]

  pub on_trade_update-Handled :
      (u : TradeUpdate) (db : Db)
      → OthersAgree
      → LedgersAgree db
      → Handled u db (on_trade_update fetch divide meanwhile u db)
  unfolding on_trade_update process
  on_trade_update-Handled u db others agree =
      let all : Onward db db = (agree, λ p. omega arith) in
      let last = last_view db (meanwhile db) in
      elim (Option-cases (locate fetch divide u (views fetch divide meanwhile db))) [
        | inl e ↦
            let runs : on_trade_update fetch divide meanwhile u db
                ≡ ([], orphaned fetch divide u last) =
              rw (e, process) refl in
            subst (Handled u db) (sym runs) (
              same-Onward db last _ (last-All (Onward db) db _ all (others db agree))
                  (orphaned-Same fetch divide u last),
              λ o v r found. absurd (cc (e, found)),
            )
        | inr ((o, v), e) ↦
            let onward =
              located-All (Onward db) u (views fetch divide meanwhile db) o v (all, others db agree)
                e in
            let runs : on_trade_update fetch divide meanwhile u db
                ≡ settle_update u v (process_located fetch divide o u v) =
              rw (e, process) refl in
            subst (Handled u db) (sym runs) (settled-Handled u db v o onward.0 onward.1 e)
      ]
