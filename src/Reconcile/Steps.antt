-- ===== src/Reconcile/Steps.antt =====
-- Each step of a run ends, keeps the ledgers in agreement, and lowers no recorded quantity.
use roi_gen.Base.{
  ℕ, ◌≡◌, refl, Bool, true, false, ◌&&◌, not, Option, none, some, List, [], ◌∷◌, ℤ, arith, is_some,
  select, if_cases, Bool-cases, inl, inr,
}
use roi_gen.Models.Enums.{EventSource}
use roi_gen.Models.Rows.{Order, Fill, Event, Db}
use roi_gen.Execution.State.{BrokerOrder}
use roi_gen.Execution.Synthesis.Ledger.{LedgersAgree}
use roi_gen.Execution.TradeUpdates.Process.{is_bracket}
use roi_gen.Execution.TradeUpdates.Surroundings.{SameLedgers, SameLedgers-agree, same_refl}
use roi_gen.Reconcile.Adopt.{OrderTree, Broker, refresh, or_now, log_run, adopt_truth}
use roi_gen.Reconcile.Orders.{
  Run, local_twin, note_adopted, match_twin, match_open, is_settled, adopt_legs_of, recover_found,
  recover, recover_stragglers,
}
use roi_gen.Reconcile.AllOrders.{
  add_synthesized, has_deficit, repair_from_columns, repair_found, repair, retry_remainders,
  repair_ledgers,
}
use roi_gen.Reconcile.Ledger.{synthesize_missing-Reaches, adopt_truth-Adopts}
use roi_gen.Reconcile.Remainders.{retry_unapplied_remainders}
use roi_gen.Reconcile.Remainders.Balanced.{Rebalanced-agree}
use roi_gen.Reconcile.Remainders.Retried.{retry_unapplied_remainders-Rebalanced}
use roi_gen.Reconcile.Grows.{
  Grows, same-Grows, Grows-then, Reaches-Grows, log_run-Same, persist_bracket_legs-Same,
  handle_unknown-Same, local_twin-Same, Ends, Answers, lookup-Answers,
}

module _ (divide : ℤ → ℕ → ℤ) (portfolio now : ℕ) (synthesize_fills : Bool) where
  adopted-Grows :
      (o : Order) (b : BrokerOrder) (synthesize : Bool) (db : Db)
      → LedgersAgree db
      → (a : _) × (adopt_truth divide o b now synthesize db ≡ some a) × Grows db.fills a.db
  adopted-Grows o b true db v =
      let (a, e, h) = adopt_truth-Adopts divide b now o true db v in
      (a, e, Reaches-Grows (omega arith) h)
  adopted-Grows o b false db v =
      let (a, e, h) = adopt_truth-Adopts divide b now o false db v in
      (a, e, Reaches-Grows (omega arith) h)

  match_twin-Ends :
      (b : BrokerOrder) (local : Option Order) (run : Run)
      → LedgersAgree run.db
      → Ends run.db.fills (match_twin divide portfolio now synthesize_fills b (local, run))
  unfolding match_twin
  match_twin-Ends b none run v = (
    _,
    refl,
    same-Grows
        (log_run-Same EventSource.broker portfolio none _ run.db (λ n. refl, λ p known. refl)) v,
  )
  match_twin-Ends b (some o) run v =
      let (a, e, h) = adopted-Grows o b synthesize_fills run.db v in
      (
        note_adopted divide portfolio now synthesize_fills
            (record run { matched = o.id ∷ run.matched }) a,
        rw (e, match_twin) refl,
        h,
      )

  abbrev pub handled : BrokerOrder → Option OrderTree → Run → Option Run
  handled b parent run =
      match_twin divide portfolio now synthesize_fills b (local_twin b parent run)

  pub handled-Ends :
      (b : BrokerOrder) (parent : Option OrderTree) (run : Run)
      → LedgersAgree run.db
      → Ends run.db.fills (handled b parent run)
  handled-Ends b parent run v =
      let same = local_twin-Same b parent run in
      let twin = local_twin b parent run in
      let (r, e, h) = match_twin-Ends b twin.0 twin.1 (SameLedgers-agree same v) in
      (r, e, Grows-then (same-Grows same v) h)

  pub match_open-Ends :
      (listed : List (BrokerOrder × Option OrderTree)) (run : Run)
      → LedgersAgree run.db
      → Ends run.db.fills (match_open divide portfolio now synthesize_fills listed run)
  unfolding match_open
  match_open-Ends [] run v = (run, refl, same-Grows (same_refl run.db) v)
  match_open-Ends ((b, parent) ∷ rest) run v =
      let (r, e, h) = handled-Ends b parent run v in
      let (r', e', h') = match_open-Ends rest r h.agree in
      (r', rw (e, match_open) e', Grows-then h h')

  adopt_legs_of-Same :
      (o : Order) (t : OrderTree) (db : Db)
      → SameLedgers db (adopt_legs_of divide portfolio now synthesize_fills o t db)
  adopt_legs_of-Same o t db =
      elim (Bool-cases (is_bracket t.order.order_class && not (is_some o.parent_order_id))) [
        | inl e ↦ rw e (persist_bracket_legs-Same o t.legs db)
        | inr e ↦ rw e (same_refl db)
      ]

  recover_found-Ends :
      (o : Order) (found : Option OrderTree) (run : Run)
      → LedgersAgree run.db
      → Ends run.db.fills (recover_found divide portfolio now synthesize_fills o found run)
  unfolding recover_found
  recover_found-Ends o none run v =
      (_, refl, same-Grows (handle_unknown-Same portfolio o now run.db) v)
  recover_found-Ends o (some t) run v =
      let (a, e, h) = adopted-Grows o t.order synthesize_fills run.db v in
      (
        note_adopted divide portfolio now synthesize_fills run (record a {
          db = adopt_legs_of divide portfolio now synthesize_fills (refresh o a.db) t a.db;
        }),
        rw (e, recover_found) refl,
        Grows-then h (same-Grows (adopt_legs_of-Same (refresh o a.db) t a.db) h.agree),
      )

  recover-Ends :
      (broker : Broker) (o : Order) (run : Run)
      → Answers broker
      → LedgersAgree run.db
      → Ends run.db.fills (recover divide portfolio now synthesize_fills broker o run)
  unfolding recover
  recover-Ends broker o run answers v =
      let (t, e) = lookup-Answers broker o answers in
      let (r, k, h) = recover_found-Ends o t run v in (r, rw (e, recover) k, h)

  pub recover_stragglers-Ends :
      (broker : Broker) (listed : List (BrokerOrder × Option OrderTree)) (locals : List Order)
      (run : Run)
      → Answers broker
      → LedgersAgree run.db
      → Ends run.db.fills
          (recover_stragglers divide portfolio now synthesize_fills broker listed locals run)
  unfolding recover_stragglers
  recover_stragglers-Ends broker listed [] run answers v =
      (run, refl, same-Grows (same_refl run.db) v)
  recover_stragglers-Ends broker listed (o ∷ locals) run answers v =
      elim (Bool-cases (is_settled divide portfolio now synthesize_fills listed run o)) [
        | inl e ↦
            let (r, k, h) = recover_stragglers-Ends broker listed locals run answers v in
            (r, rw (e, recover_stragglers) k, h)
        | inr e ↦
            let (r, k, h) = recover-Ends broker o run answers v in
            let (r', k', h') = recover_stragglers-Ends broker listed locals r answers h.agree in
            (r', rw (e, recover_stragglers, k) k', Grows-then h h')
      ]

  repair_from_columns-Ends :
      (o : Order) (run : Run)
      → LedgersAgree run.db
      → Ends run.db.fills (repair_from_columns divide portfolio now synthesize_fills o run)
  unfolding repair_from_columns
  repair_from_columns-Ends o run v = elim (Bool-cases (is_some o.filled_avg_price)) [
    | inr e ↦ (
      record run {
        db =
            log_run EventSource.system portfolio (some o.id)
              (Event.ledger_deficit_unresolved o.client_order_id o.filled_qty) run.db;
      },
      rw e refl,
      same-Grows
          (log_run-Same EventSource.system portfolio (some o.id) _ run.db
            (λ n. refl, λ p known. refl))
          v,
    )
    | inl e ↦
        let locked = refresh o run.db in
        let (r, k, h) =
          synthesize_missing-Reaches divide locked locked.filled_qty locked.filled_avg_price
            (or_now locked.filled_at now) none run.db v in
        (
          add_synthesized divide portfolio now synthesize_fills run r,
          rw (e, k, repair_from_columns) refl,
          Reaches-Grows (omega arith) h,
        )
  ]

  repair_found-Ends :
      (o : Order) (found : Option OrderTree) (run : Run)
      → LedgersAgree run.db
      → Ends run.db.fills (repair_found divide portfolio now synthesize_fills o found run)
  unfolding repair_found
  repair_found-Ends o none run v = repair_from_columns-Ends o run v
  repair_found-Ends o (some t) run v =
      let (a, e, h) = adopted-Grows o t.order true run.db v in
      (
        add_synthesized divide portfolio now synthesize_fills run (a.synthesized, a.db),
        rw (e, repair_found) refl,
        h,
      )

  repair-Ends :
      (broker : Broker) (locals : List Order) (run : Run)
      → Answers broker
      → LedgersAgree run.db
      → Ends run.db.fills (repair divide portfolio now synthesize_fills broker locals run)
  unfolding repair
  repair-Ends broker [] run answers v = (run, refl, same-Grows (same_refl run.db) v)
  repair-Ends broker (o ∷ locals) run answers v =
      let (t, e) = lookup-Answers broker o answers in
      let (r, k, h) = repair_found-Ends o t run v in
      let (r', k', h') = repair-Ends broker locals r answers h.agree in
      (r', rw (e, repair, k) k', Grows-then h h')

  retry_remainders-Ends :
      (fills : List Fill) (result : Option Run)
      → Ends fills result
      → Ends fills (retry_remainders divide portfolio now synthesize_fills result)
  unfolding retry_remainders
  retry_remainders-Ends fills result (r, e, h) =
      let balanced = retry_unapplied_remainders-Rebalanced portfolio r.db h.agree.ledger in
      (
        record r { db = (retry_unapplied_remainders portfolio r.db).1 },
        rw (e, retry_remainders) refl,
        Grows-then h (record {
          agree = Rebalanced-agree balanced h.agree;
          grown = λ p. rw balanced.untouched.fills (omega arith);
        }),
      )

  pub repairs-Ends :
      (broker : Broker) (run : Run)
      → Answers broker
      → LedgersAgree run.db
      → Ends run.db.fills (repair_ledgers divide portfolio now synthesize_fills broker run)
  unfolding repair_ledgers
  repairs-Ends broker run answers v =
      if_cases (Ends run.db.fills) synthesize_fills _ _
        (λ on. retry_remainders-Ends run.db.fills _ (
          repair-Ends broker
            (select (has_deficit divide portfolio now synthesize_fills run.db) run.db.orders) run
            answers v))
        (λ off. (run, refl, same-Grows (same_refl run.db) v))
