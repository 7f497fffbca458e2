-- ===== src/Execution/TradeUpdates/Stream.antt =====
-- The whole handler, and the stream of updates: what surrounds the recorded execution leaves the
-- ledgers alone, so they agree after any stream.
use roi_gen.Base.{
  ℕ, ◌≤◌, ◌≡◌, refl, ◌&&◌, not, Option, none, some, List, [], ◌∷◌, ℤ, arith, subst, is_some,
  Bool-cases, Option-cases, inl, inr,
}
use roi_gen.Models.Rows.{Order, Db, put_order, flushed, has_unique_ids}
use roi_gen.Execution.State.{BrokerOrder, apply_snapshot}
use roi_gen.Execution.Synthesis.{filled_by, recorded}
use roi_gen.Execution.Synthesis.Ledger.{LedgersAgree}
use roi_gen.Execution.Legs.{children, persist_bracket_legs}
use roi_gen.Execution.TradeUpdates.{TradeUpdate, FillEvent, fill_key}
use roi_gen.Execution.TradeUpdates.Process.{
  resurrect, is_failed, log_skipped, is_bracket, no_rows, adopt_fetched, ensure_legs,
  ensure_bracket, apply_update, handle, process_located, lookup_order, locate, process, orphaned,
}
use roi_gen.Execution.TradeUpdates.Recorded.{record_execution-orders}
use roi_gen.Execution.TradeUpdates.Stored.{AddsFetched, resurrect-orders, apply_update-Adds}
use roi_gen.Execution.TradeUpdates.Gap.{Reaches}
use roi_gen.Execution.TradeUpdates.Execution.{cursor_of, record_execution_converges}
use roi_gen.Execution.TradeUpdates.Surroundings.{
  SameLedgers, SameLedgers-agree, same_refl, same_trans, resurrect-Same, log_skipped-Same,
  persist_legs-Same,
}

module _ (fetch : ℕ → Option (Option (List BrokerOrder))) where
  adopt_fetched-Same :
      (found : Option (Option (List BrokerOrder))) (o : Order) (db : Db)
      → SameLedgers db (adopt_fetched fetch found o db)
  adopt_fetched-Same (some (some legs)) o db =
      unfold persist_bracket_legs in persist_legs-Same o (children o.id db.orders) legs db 0
  adopt_fetched-Same (some none) o db = same_refl db
  adopt_fetched-Same none o db = same_refl db

  ensure_bracket-Same : (o : Order) (db : Db) → SameLedgers db (ensure_bracket fetch o db)
  unfolding ensure_bracket ensure_legs
  ensure_bracket-Same o db = elim (Option-cases o.broker_order_id) [
    | inl e ↦ rw (e, ensure_bracket) (same_refl db)
    | inr (b, e) ↦ elim (Bool-cases (is_bracket o.order_class && not (is_some o.parent_order_id))) [
      | inl parent ↦ elim (Bool-cases (no_rows (children o.id db.orders))) [
        | inl bare ↦ rw (e, ensure_bracket, parent, bare) (adopt_fetched-Same (fetch b) o db)
        | inr has ↦ rw (e, ensure_bracket, parent, has) (same_refl db)
      ]
      | inr other ↦ rw (e, ensure_bracket, other) (same_refl db)
    ]
  ]

  module _ (divide : ℤ → ℕ → ℤ) where
    apply_update-Same :
        (o : Order) (u : TradeUpdate) (db : Db) → SameLedgers db (apply_update fetch divide o u db)
    unfolding apply_update
    apply_update-Same o u db =
        let (o', plan) = apply_snapshot o u.order in
        let stored : Db = record db { orders = put_order o' db.orders } in
        let put : SameLedgers db stored = record {
          lots = refl;
          lot_closes = refl;
          fills = refl;
          parked = λ n. refl;
          next_id = omega arith;
        } in
        same_trans put (
          same_trans (log_skipped-Same plan o.status o' u stored)
            (ensure_bracket-Same o' (log_skipped plan o.status o' u stored)))

    resurrected-id : (o : Order) (u : TradeUpdate) (db : Db) → (resurrect o u db).0.id ≡ o.id
    unfolding resurrect
    resurrected-id o u db = ground arith

    resurrected-key :
        (o : Order) (u : TradeUpdate) (db : Db) → fill_key (resurrect o u db).0 u ≡ fill_key o u
    unfolding resurrect
    resurrected-key o u db = elim (Bool-cases (is_failed o.status)) [
      | inl e ↦ rw e refl
      | inr e ↦ rw e refl
    ]

    -- What a transaction on a located row comes to, where the row becomes `stored`.
    abbrev pub Converges :
        Order → Order → TradeUpdate → Db → Option (Option FillEvent × Db) → Type 0
    Converges o stored u db result =
        (r : Option FillEvent × Db) × (result ≡ flushed r.1.orders r)
        × Reaches o db.fills
            (cursor_of divide o
              (is_some u.qty && (is_some u.price && recorded (fill_key o u) db.fills)) u db.fills)
            r.1
        × AddsFetched fetch stored (put_order stored db.orders) r.1.orders

    finish :
        (o : Order) (u : TradeUpdate) (db : Db)
        → LedgersAgree db
        → Converges o (apply_snapshot o u.order).0 u db (handle fetch divide o u db)
    unfolding handle
    finish o u db v =
        let (r, e, h) = record_execution_converges divide o u db v in
        let same = apply_update-Same o u r.1 in
        (
          (r.0, apply_update fetch divide o u r.1),
          rw (e, handle) refl,
          record {
            agree = SameLedgers-agree same h.agree;
            cursor = λ p. rw same.fills (h.cursor p);
          },
          subst
              (λ os.
                AddsFetched fetch (apply_snapshot o u.order).0
                  (put_order (apply_snapshot o u.order).0 os)
                  (apply_update fetch divide o u r.1).orders)
              (record_execution-orders divide o u db r e) (apply_update-Adds fetch divide o u r.1),
        )

    -- The row after the update.
    abbrev pub updated : Order → TradeUpdate → Db → Order
    updated o u db = (apply_snapshot (resurrect o u db).0 u.order).0

    pub process_located-Converges :
        (o : Order) (u : TradeUpdate) (db : Db)
        → LedgersAgree db
        → Converges o (updated o u db) u db (process_located fetch divide o u db)
    unfolding process_located
    process_located-Converges o u db v =
        let same = resurrect-Same o u db in
        let revived = resurrect o u db in
        let (r, e, h, rows) = finish revived.0 u revived.1 (SameLedgers-agree same v) in
        (
          r,
          e,
          record {
            agree = h.agree;
            cursor =
                λ p. rw (resurrected-key o u db, resurrected-id o u db, same.fills) at (h.cursor p);
          },
          subst
              (λ os. AddsFetched fetch (updated o u db) (put_order (updated o u db) os) r.1.orders)
              (resurrect-orders o u db) rows,
        )

    process-found :
        (u : TradeUpdate) (db : Db) (o : Order)
        → lookup_order fetch divide u db ≡ some o
        → process fetch divide u (db ∷ []) db ≡ process_located fetch divide o u db
    unfolding process locate
    process-found u db o found = rw (found, locate, process) refl

    process-absent :
        (u : TradeUpdate) (db : Db)
        → lookup_order fetch divide u db ≡ none
        → process fetch divide u (db ∷ []) db ≡ some (none, orphaned fetch divide u db)
    unfolding process locate
    process-absent u db absent = rw (absent, locate, process) refl

    abbrev pub after : Option (Option FillEvent × Db) → Db → Db
    after none old = old
    after (some (event, new)) old = new

    -- The database after a stream of updates, each found or not found at its first attempt.
    pub run : List TradeUpdate → Db → Db
    run [] db = db
    run (u ∷ us) db = run us (after (process fetch divide u (db ∷ []) db) db)

    pub orphaned-Same : (u : TradeUpdate) (db : Db) → SameLedgers db (orphaned fetch divide u db)
    orphaned-Same u db = record {
      lots = refl;
      lot_closes = refl;
      fills = refl;
      parked = λ n. omega arith;
      next_id = omega arith;
    }

    pub step-agree :
        (u : TradeUpdate) (db : Db)
        → LedgersAgree db
        → LedgersAgree (after (process fetch divide u (db ∷ []) db) db)
          × ((p : ℕ)
              → filled_by p db.fills
                ≤ filled_by p (after (process fetch divide u (db ∷ []) db) db).fills)
    step-agree u db v = elim (Option-cases (lookup_order fetch divide u db)) [
      | inl absent ↦
          rw (process-absent u db absent)
            (SameLedgers-agree (orphaned-Same u db) v, λ p. omega arith)
      | inr (o, found) ↦
          let (r, e, h, rows) = process_located-Converges o u db v in
          elim (Bool-cases (has_unique_ids r.1.orders)) [
            | inl k ↦
                rw (process-found u db o found, e, k) (h.agree, λ p. ground (arith, h.cursor p))
            | inr k ↦ rw (process-found u db o found, e, k) (v, λ p. omega arith)
          ]
    ]

    -- Over any stream of updates, foreign orders and redeliveries among them, the ledgers go on
    -- agreeing and no order's recorded quantity falls.
    pub run-LedgersAgree :
        (us : List TradeUpdate) (db : Db)
        → LedgersAgree db
        → LedgersAgree (run us db)
          × ((p : ℕ) → filled_by p db.fills ≤ filled_by p (run us db).fills)
    unfolding run
    run-LedgersAgree [] db v = (v, λ p. omega arith)
    run-LedgersAgree (u ∷ us) db v =
        let (agree, grows) = step-agree u db v in
        let (agree', grows') = run-LedgersAgree us _ agree in
        (agree', λ p. omega (arith, grows p, grows' p))
