-- ===== src/Reconcile/Orders.antt =====
-- The orders of a portfolio against the broker, the first two steps of `_reconcile_orders` of
-- backend/app/services/reconciliation.py. A raised exception is `none`. An index of rows stands for
-- the two dictionaries of local orders: a row added later comes first, as a key that is set again
-- replaces what it held. Its rows are as they were read, and the keys as well.
use roi_gen.Base.{
  ℕ, ◌+◌, Bool, true, false, ◌&&◌, ◌||◌, not, Option, none, some, List, [], ◌∷◌, ◌++◌, ℤ, ltb, ◌==◌,
  if◌then◌else◌, is_some, column_is, find, any,
}
use roi_gen.Models.Enums.{OrderStatus, StatusText, known, EventSource}
use roi_gen.Models.Rows.{Order, Event, Db}
use roi_gen.Execution.State.{BrokerOrder}
use roi_gen.Execution.Legs.{persist_bracket_legs}
use roi_gen.Execution.TradeUpdates.Process.{is_bracket}
use roi_gen.Reconcile.Adopt.{
  OrderTree, Broker, lookup, refresh, Adopted, adopt_truth, handle_unknown, log_run,
}

-- Membership in `TERMINAL_STATUSES`; an unknown text is not terminal.
unfoldable pub is_terminal : StatusText → Bool
is_terminal (known OrderStatus.filled) = true
is_terminal (known OrderStatus.canceled) = true
is_terminal (known OrderStatus.expired) = true
is_terminal (known OrderStatus.rejected) = true
is_terminal (known OrderStatus.replaced) = true
is_terminal (known OrderStatus.failed) = true
is_terminal _ = false

pub find_local : List Order → BrokerOrder → Option Order
find_local index b = elim (find (λ o. column_is o.broker_order_id b.broker_order_id) index) [
  | some o ↦ some o
  | none ↦ elim b.client_order_id [
    | none ↦ none
    | some c ↦ find (λ o. o.client_order_id == c) index
  ]
]

-- The open orders with the legs of each after it, and the parent that a leg belongs to.
abbrev pub leg_pairs : OrderTree → List BrokerOrder → List (BrokerOrder × Option OrderTree)
leg_pairs parent [] = []
leg_pairs parent (leg ∷ legs) = (leg, some parent) ∷ leg_pairs parent legs

abbrev pub flat : List OrderTree → List (BrokerOrder × Option OrderTree)
flat [] = []
flat (t ∷ ts) = (t.order, none) ∷ (leg_pairs t t.legs ++ flat ts)

-- The counts that the run returns, the ids of the rows that were matched, the index and the session.
pub record Run : Type 0 where
  pub updated : ℕ
  pub orphans : ℕ
  pub missing : ℕ
  pub synthesized : ℕ
  pub matched : List ℕ
  pub index : List Order
  pub db : Db

abbrev pub count : Bool → ℕ
count true = 1
count false = 0

-- A leg without a row whose parent has one: the legs are adopted, and the leg's row is read.
unfoldable pub adopt_leg : BrokerOrder → OrderTree → Run → Option Order × Run
unfolding find_local
adopt_leg leg parent run = elim (find_local run.index parent.order) [
  | none ↦ (none, run)
  | some local_parent ↦
      let (db', created) = persist_bracket_legs local_parent parent.legs run.db in
      if ltb 0 created
      then elim (find (λ o. column_is o.broker_order_id leg.broker_order_id) db'.orders) [
        | none ↦ (none, record run { db = db' })
        | some o ↦ (some o, record run { index = o ∷ run.index; db = db' })
      ]
      else (none, record run { db = db' })
]

unfoldable pub local_twin : BrokerOrder → Option OrderTree → Run → Option Order × Run
unfolding adopt_leg
local_twin b parent run = elim (find_local run.index b) [
  | some o ↦ (some o, run)
  | none ↦ elim parent [ none ↦ (none, run) | some p ↦ adopt_leg b p run ]
]

module _ (divide : ℤ → ℕ → ℤ) (portfolio now : ℕ) (synthesize_fills : Bool) where
  abbrev pub note_orphan : BrokerOrder → Run → Run
  note_orphan b run = record run {
    orphans = run.orphans + 1;
    db =
        log_run EventSource.broker portfolio none
          (Event.reconcile_orphan b.broker_order_id b.client_order_id b.symbol b.side b.status
            b.qty)
          run.db;
  }

  abbrev pub note_adopted : Run → Adopted divide → Run
  note_adopted run a = record run {
    updated = run.updated + count a.changed;
    synthesized = run.synthesized + a.synthesized;
    db = a.db;
  }

  unfoldable pub match_twin : BrokerOrder → Option Order × Run → Option Run
  match_twin b (none, run) = some (note_orphan b run)
  match_twin b (some local, run) = elim (adopt_truth divide local b now synthesize_fills run.db) [
    | none ↦ none
    | some a ↦ some (note_adopted (record run { matched = local.id ∷ run.matched }) a)
  ]

  -- The first step: every open order at the broker, in turn.
  unfoldable pub match_open : List (BrokerOrder × Option OrderTree) → Run → Option Run
  unfolding match_twin local_twin
  match_open [] run = some run
  match_open ((b, parent) ∷ rest) run = elim (match_twin b (local_twin b parent run)) [
    | none ↦ none
    | some run' ↦ match_open rest run'
  ]

  -- `local.broker_order_id in open_broker_ids`
  abbrev pub is_listed : List (BrokerOrder × Option OrderTree) → Order → Bool
  is_listed listed o = any (λ p. column_is o.broker_order_id p.0.broker_order_id) listed

  abbrev pub is_settled : List (BrokerOrder × Option OrderTree) → Run → Order → Bool
  is_settled listed run o =
      any (λ i. i == o.id) run.matched || (is_terminal o.status || is_listed listed o)

  abbrev pub adopt_legs_of : Order → OrderTree → Db → Db
  adopt_legs_of local t db =
      if is_bracket t.order.order_class && not (is_some local.parent_order_id)
      then (persist_bracket_legs local t.legs db).0
      else db

  unfoldable pub recover_found : Order → Option OrderTree → Run → Option Run
  recover_found local none run =
      let (missing, db') = handle_unknown portfolio local now run.db in
      some (record run { missing = run.missing + missing; db = db' })
  recover_found local (some t) run =
      elim (adopt_truth divide local t.order now synthesize_fills run.db) [
        | none ↦ none
        | some a ↦
            some (note_adopted run (record a { db = adopt_legs_of (refresh local a.db) t a.db }))
      ]

  unfoldable pub recover : Broker → Order → Run → Option Run
  unfolding recover_found lookup
  recover broker local run = elim (lookup broker local) [
    | none ↦ none
    | some found ↦ recover_found local found run
  ]

  -- The second step: every local order that is not settled, in turn.
  unfoldable pub recover_stragglers :
      Broker → List (BrokerOrder × Option OrderTree) → List Order → Run → Option Run
  unfolding recover
  recover_stragglers broker listed [] run = some run
  recover_stragglers broker listed (local ∷ locals) run =
      elim (if is_settled listed run local then some run else recover broker local run) [
        | none ↦ none
        | some run' ↦ recover_stragglers broker listed locals run'
      ]
