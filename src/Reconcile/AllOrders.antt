-- ===== src/Reconcile/AllOrders.antt =====
-- The sweep of ledger deficits, and the four steps together: `_sweep_ledger_deficits` and
-- `_reconcile_orders` of backend/app/services/reconciliation.py.
use roi_gen.Base.{
  ℕ, ◌+◌, Bool, true, ◌&&◌, Option, none, some, List, [], ◌∷◌, ℤ, ltb, ◌==◌, if◌then◌else◌, is_some,
  select,
}
use roi_gen.Models.Enums.{EventSource}
use roi_gen.Models.Rows.{Order, Event, Db, flushed}
use roi_gen.Execution.Synthesis.{filled_by}
use roi_gen.Reconcile.Adopt.{
  OrderTree, Broker, lookup, refresh, or_now, synthesize_missing, adopt_truth, log_run,
}
use roi_gen.Reconcile.Remainders.{retry_unapplied_remainders}
use roi_gen.Reconcile.Orders.{flat, Run, match_open, recover_stragglers}

module _ (divide : ℤ → ℕ → ℤ) (portfolio now : ℕ) (synthesize_fills : Bool) where
  -- The third step: an order whose fills trail its filled quantity.
  abbrev pub has_deficit : Db → Order → Bool
  has_deficit db o = o.portfolio_id == portfolio && ltb (filled_by o.id db.fills) o.filled_qty

  abbrev pub add_synthesized : Run → ℕ × Db → Run
  add_synthesized run (n, db) = record run { synthesized = run.synthesized + n; db = db }

  -- The order's own columns where the broker does not return it.
  unfoldable pub repair_from_columns : Order → Run → Option Run
  repair_from_columns local run =
      if is_some local.filled_avg_price
      then (let locked = refresh local run.db in
          elim (synthesize_missing divide locked locked.filled_qty locked.filled_avg_price
            (or_now locked.filled_at now) none run.db) [
              | none ↦ none
              | some counted ↦ some (add_synthesized run counted)
            ])
      else some (record run {
        db =
            log_run EventSource.system portfolio (some local.id)
              (Event.ledger_deficit_unresolved local.client_order_id local.filled_qty) run.db;
      })

  unfoldable pub repair_found : Order → Option OrderTree → Run → Option Run
  unfolding repair_from_columns
  repair_found local none run = repair_from_columns local run
  repair_found local (some t) run = elim (adopt_truth divide local t.order now true run.db) [
    | none ↦ none
    | some a ↦ some (add_synthesized run (a.synthesized, a.db))
  ]

  unfoldable pub repair : Broker → List Order → Run → Option Run
  unfolding repair_found lookup
  repair broker [] run = some run
  repair broker (local ∷ locals) run = elim (lookup broker local) [
    | none ↦ none
    | some found ↦ elim (repair_found local found run) [
      | none ↦ none
      | some run' ↦ repair broker locals run'
    ]
  ]

  abbrev pub sweep_ledger_deficits : Broker → Run → Option Run
  sweep_ledger_deficits broker run = repair broker (select (has_deficit run.db) run.db.orders) run

  -- The fourth step follows the sweep.
  unfoldable pub retry_remainders : Option Run → Option Run
  unfolding retry_unapplied_remainders
  retry_remainders none = none
  retry_remainders (some run) =
      some (record run { db = (retry_unapplied_remainders portfolio run.db).1 })

  unfoldable pub repair_ledgers : Broker → Run → Option Run
  unfolding repair retry_remainders
  repair_ledgers broker run =
      if synthesize_fills then retry_remainders (sweep_ledger_deficits broker run) else some run

  abbrev pub start_run : List Order → Db → Run
  start_run locals db = record {
    updated = 0;
    orphans = 0;
    missing = 0;
    synthesized = 0;
    matched = [];
    index = locals;
    db = db;
  }

  -- The four steps, from the local rows as they were read. `broker` answers the lookups of the
  -- second step and `later` those of the sweep. The rows are flushed on the way.
  unfoldable pub reconcile_orders :
      (broker later : Broker) → List OrderTree → List Order → Db → Option Run
  unfolding match_open recover_stragglers repair_ledgers
  reconcile_orders broker later open_orders locals db =
      elim (match_open divide portfolio now synthesize_fills (flat open_orders)
        (start_run locals db)) [
          | none ↦ none
          | some run ↦
              elim (recover_stragglers divide portfolio now synthesize_fills broker
                (flat open_orders) locals run) [
                  | none ↦ none
                  | some run' ↦ elim (repair_ledgers later run') [
                    | none ↦ none
                    | some last ↦ flushed last.db.orders last
                  ]
                ]
        ]
