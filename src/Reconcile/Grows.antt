-- ===== src/Reconcile/Grows.antt =====
-- Steps of a run that keep the ledgers in agreement and never lower a recorded quantity.
use roi_gen.Base.{
  ℕ, ◌≤◌, ◌≡◌, refl, Option, none, some, List, arith, ltb, column_is, find, Bool-cases,
  Option-cases, inl, inr,
}
use roi_gen.Models.Enums.{EventSource}
use roi_gen.Models.Rows.{Order, Event, Fill, Db}
use roi_gen.Execution.State.{BrokerOrder}
use roi_gen.Execution.Synthesis.{filled_by}
use roi_gen.Execution.Synthesis.Ledger.{LedgersAgree}
use roi_gen.Execution.Legs.{children, persist_bracket_legs}
use roi_gen.Execution.Lots.Absorbed.{Plain, parked_by-Plain}
use roi_gen.Execution.TradeUpdates.Gap.{Reaches}
use roi_gen.Execution.TradeUpdates.Surroundings.{
  SameLedgers, SameLedgers-agree, same_refl, same_trans, persist_legs-Same,
}
use roi_gen.Reconcile.Adopt.{
  OrderTree, Broker, lookup, refresh, awaits_submit, has_aged_out, handle_unknown, log_run,
}
use roi_gen.Reconcile.Orders.{find_local, Run, adopt_leg, local_twin}
use roi_gen.Reconcile.Ledger.{put_orders-Same}

-- The ledgers agree, and no order's recorded quantity is below what it was.
pub record Grows (fills : List Fill) (db' : Db) : Type 0 where
  pub agree : LedgersAgree db'
  pub grown : (p : ℕ) → filled_by p fills ≤ filled_by p db'.fills

pub same-Grows : {db db' : Db} → SameLedgers db db' → LedgersAgree db → Grows db.fills db'
same-Grows s v = record { agree = SameLedgers-agree s v; grown = λ p. rw s.fills (omega arith) }

pub Grows-then :
    {fs : List Fill} {db' db'' : Db} → Grows fs db' → Grows db'.fills db'' → Grows fs db''
Grows-then g h = record { agree = h.agree; grown = λ p. omega (arith, g.grown p, h.grown p) }

pub Reaches-Grows :
    {o : Order} {fs : List Fill} {target : ℕ} {db' : Db}
    → filled_by o.id fs ≤ target
    → Reaches o fs target db'
    → Grows fs db'
Reaches-Grows {o} le h = record { agree = h.agree; grown = λ p. ground (arith, h.cursor p, le) }

pub log_run-Same :
    (source : EventSource) (portfolio : ℕ) (order : Option ℕ) (e : Event) (db : Db)
    → Plain e
    → SameLedgers db (log_run source portfolio order e db)
log_run-Same source portfolio order e db plain = record {
  lots = refl;
  lot_closes = refl;
  fills = refl;
  parked = λ n. parked_by-Plain n source (some portfolio) none order e db.event_log plain;
  next_id = omega arith;
}

pub persist_bracket_legs-Same :
    (o : Order) (legs : List BrokerOrder) (db : Db)
    → SameLedgers db (persist_bracket_legs o legs db).0
unfolding persist_bracket_legs
persist_bracket_legs-Same o legs db = persist_legs-Same o (children o.id db.orders) legs db 0

pub handle_unknown-Same :
    (portfolio : ℕ) (local : Order) (now : ℕ) (db : Db)
    → SameLedgers db (handle_unknown portfolio local now db).1
unfolding handle_unknown
handle_unknown-Same portfolio local now db = elim (Bool-cases (has_aged_out local now)) [
  | inr e ↦ rw e (log_run-Same _ portfolio _ _ db (λ n. refl, λ p known. refl))
  | inl e ↦ elim (Bool-cases (awaits_submit (refresh local db).status)) [
    | inr k ↦ rw (e, k) (log_run-Same _ portfolio _ _ db (λ n. refl, λ p known. refl))
    | inl k ↦
        rw (e, k)
          (same_trans (put_orders-Same db _)
            (log_run-Same _ portfolio _ _ _ (λ n. refl, λ p known. refl)))
  ]
]

pub local_twin-Same :
    (b : BrokerOrder) (parent : Option OrderTree) (run : Run)
    → SameLedgers run.db (local_twin b parent run).1.db
unfolding local_twin adopt_leg
local_twin-Same b none run = elim (Option-cases (find_local run.index b)) [
  | inl e ↦ rw (e, local_twin) (same_refl run.db)
  | inr (o, e) ↦ rw (e, local_twin) (same_refl run.db)
]
local_twin-Same b (some t) run = elim (Option-cases (find_local run.index b)) [
  | inr (o, e) ↦ rw (e, local_twin) (same_refl run.db)
  | inl e ↦ elim (Option-cases (find_local run.index t.order)) [
    | inl absent ↦ rw (e, local_twin, absent, adopt_leg) (same_refl run.db)
    | inr (p, found) ↦
        let same = persist_bracket_legs-Same p t.legs run.db in
        let db' = (persist_bracket_legs p t.legs run.db).0 in
        elim (Bool-cases (ltb 0 (persist_bracket_legs p t.legs run.db).1)) [
          | inr k ↦ rw (e, local_twin, found, adopt_leg, k) same
          | inl k ↦
              elim (Option-cases
                (find (λ o. column_is o.broker_order_id b.broker_order_id) db'.orders)) [
                  | inl x ↦ rw (e, local_twin, found, adopt_leg, k, x) same
                  | inr (o, x) ↦ rw (e, local_twin, found, adopt_leg, k, x) same
                ]
        ]
  ]
]

-- A step that ends, with the ledgers in agreement and no cursor fallen.
abbrev pub Ends : List Fill → Option Run → Type 0
Ends fills result = (r : Run) × (result ≡ some r) × Grows fills r.db

-- The broker answers every lookup: it finds the order or says that it has none.
pub record Answers (broker : Broker) : Type 0 where
  pub by_id : (b : ℕ) → (t : Option OrderTree) × (broker.get_order b ≡ some t)
  pub by_client : (c : ℕ) → (t : Option OrderTree) × (broker.get_order_by_client_id c ≡ some t)

pub lookup-Answers :
    (broker : Broker) (o : Order)
    → Answers broker
    → (t : Option OrderTree) × (lookup broker o ≡ some t)
unfolding lookup
lookup-Answers broker o h = elim (Option-cases o.broker_order_id) [
  | inl e ↦ rw (e, lookup) (h.by_client o.client_order_id)
  | inr (b, e) ↦
      let (t, k) = h.by_id b in
      elim (Option-cases t) [
        | inl x ↦ rw (e, lookup, k, x) (h.by_client o.client_order_id)
        | inr (found, x) ↦ (some found, rw (e, lookup, k, x) refl)
      ]
]
