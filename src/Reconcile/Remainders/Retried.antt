-- ===== src/Reconcile/Remainders/Retried.antt =====
-- What a pass over the parked remainders leaves: the books of every fill are as they were, each open
-- anomaly is accounted for, and no other table is written.
use roi_gen.Base.{
  ℕ, ◌+◌, ◌≡◌, ◌≢◌, refl, sym, ap, subst, Bool, false, List, [], ◌∷◌, arith, ltb, if_cases, All,
  All-weaken, Fresh, Distinct,
}
use roi_gen.Models.Rows.{EventLog, Db}
use roi_gen.Execution.Lots.{LotApplication, apply_fill_to_lots}
use roi_gen.Execution.Lots.Validity.{LedgerIsValid, apply_fill_to_lots-LedgerIsValid}
use roi_gen.Execution.Lots.Absorbed.{absorbed, parked_by, apply_fill_to_lots-unparked}
use roi_gen.Execution.Lots.Frame.{apply_fill_to_lots-Untouched}
use roi_gen.Reconcile.Remainders.{
  Remainder, anomalies, has_resolution, retry_fill, log_applied, log_failed, log_retry, retry_one,
  retry_each, retry_unapplied_remainders,
}
use roi_gen.Reconcile.Remainders.Open.{remainder_share, anomalies-Open}
use roi_gen.Reconcile.Remainders.Keys.{keys, anomalies-Distinct}
use roi_gen.Reconcile.Remainders.Balanced.{
  Rebalanced, Rebalanced-refl, Rebalanced-then, Waiting, log_applied-parked, log_failed-parked,
  log_applied-Waiting, log_failed-Waiting, log_applied-Relogged, log_failed-Relogged,
  Relogged-Rebalanced, residual_share,
}

-- One retry, for the anomalies that wait after it too.
record Retrying (portfolio : ℕ) (m : Remainder) (db new : Db) : Type 0 where
  balanced : Rebalanced db new
  others :
      (x : Remainder)
      → m.anomaly_id ≢ x.anomaly_id
      → Waiting portfolio x db.event_log
      → Waiting portfolio x new.event_log

module _ (portfolio : ℕ) (before : List EventLog) (m : Remainder) (count : ℕ) (db : Db)
    (v : LedgerIsValid db) (waits : Waiting portfolio m db.event_log) where
  abbrev applied : LotApplication × Db
  applied = apply_fill_to_lots (retry_fill portfolio m) db

  unparked :
      (n : ℕ)
      → (applied.1.event_log ≡ db.event_log)
        × (applied.0.qty_closed + applied.0.unapplied_qty ≡ m.qty)
        × (absorbed n applied.1 + residual_share n m applied.0.unapplied_qty
            ≡ absorbed n db + remainder_share n m)
  unfolding residual_share
  unparked n = apply_fill_to_lots-unparked n (retry_fill portfolio m) db v refl refl

  applied-Retrying : Retrying portfolio m db (log_applied portfolio m applied.0 applied.1)
  applied-Retrying =
      let log = (unparked 0).0 in
      let still = subst (Waiting portfolio m) (sym log) waits in
      record {
        balanced =
            Relogged-Rebalanced db applied.1 (log_applied portfolio m applied.0 applied.1)
              (apply_fill_to_lots-LedgerIsValid _ db v) (apply_fill_to_lots-Untouched _ db)
              (log_applied-Relogged portfolio m applied.0 applied.1)
              (λ n. omega (
                arith,
                unparked n,
                ap (parked_by n) log,
                log_applied-parked n portfolio m applied.0 applied.1 still,
              ));
        others = λ x ne h.
            log_applied-Waiting portfolio m x applied.0 applied.1 ne
              (subst (Waiting portfolio x) (sym log) h);
      }

  failed-Retrying :
      (cycle : ℕ) (alerted : Bool)
      → applied.0.qty_closed ≡ 0
      → Retrying portfolio m db (log_failed portfolio m cycle alerted applied.1)
  unfolding residual_share
  failed-Retrying cycle alerted nothing =
      let log = (unparked 0).0 in
      record {
        balanced =
            Relogged-Rebalanced db applied.1 (log_failed portfolio m cycle alerted applied.1)
              (apply_fill_to_lots-LedgerIsValid _ db v) (apply_fill_to_lots-Untouched _ db)
              (log_failed-Relogged portfolio m cycle alerted applied.1)
              (λ n. ground (
                arith,
                nothing,
                unparked n,
                ap (parked_by n) log,
                log_failed-parked n portfolio m cycle alerted applied.1,
              ));
        others = λ x ne h.
            log_failed-Waiting portfolio m x cycle alerted applied.1
              (subst (Waiting portfolio x) (sym log) h);
      }

  log_retry-Retrying : Retrying portfolio m db (log_retry portfolio before m applied count).1
  log_retry-Retrying =
      if_cases {A = ℕ × Db} (λ st. Retrying portfolio m db st.1) (ltb 0 applied.0.qty_closed) _ _
        (λ e. applied-Retrying) (λ e. failed-Retrying _ _ (ground (arith, e)))

-- What the pass will retry is still waiting.
Due : ℕ → List EventLog → Db → Remainder → Type 0
Due portfolio before db m =
    has_resolution portfolio m.anomaly_id before ≡ false → Waiting portfolio m db.event_log

retry_one-Retrying :
    (portfolio : ℕ) (before : List EventLog) (m : Remainder) (count : ℕ) (db : Db)
    → LedgerIsValid db
    → (has_resolution portfolio m.anomaly_id before ≡ false → Waiting portfolio m db.event_log)
    → Retrying portfolio m db (retry_one portfolio before m (count, db)).1
unfolding retry_one
retry_one-Retrying portfolio before m count db v waits =
    if_cases {A = ℕ × Db} (λ st. Retrying portfolio m db st.1)
      (has_resolution portfolio m.anomaly_id before) _ _
      (λ e. record { balanced = Rebalanced-refl db v; others = λ x ne h. h })
      (λ e. log_retry-Retrying portfolio before m count db v (waits e))

still :
    (portfolio : ℕ) (before : List EventLog) (m : Remainder) (ms : List Remainder) (db db' : Db)
    → Fresh m.anomaly_id (keys ms)
    → ((x : Remainder)
        → m.anomaly_id ≢ x.anomaly_id
        → Waiting portfolio x db.event_log
        → Waiting portfolio x db'.event_log)
    → All (Due portfolio before db) ms
    → All (Due portfolio before db') ms
unfolding Due
still portfolio before m [] db db' f keep h = tt
still portfolio before m (x ∷ ms) db db' f keep h =
    ((λ u. keep x f.0 (h.0 u)), still portfolio before m ms db db' f.1 keep h.1)

retry_each-Rebalanced :
    (portfolio : ℕ) (before : List EventLog) (ms : List Remainder) (count : ℕ) (db : Db)
    → LedgerIsValid db
    → Distinct (keys ms)
    → All (Due portfolio before db) ms
    → Rebalanced db (retry_each portfolio before ms (count, db)).1
unfolding retry_each Due
retry_each-Rebalanced portfolio before [] count db v d h = Rebalanced-refl db v
retry_each-Rebalanced portfolio before (m ∷ ms) count db v d h =
    let (n, db') = retry_one portfolio before m (count, db) in
    let one = retry_one-Retrying portfolio before m count db v h.0 in
    Rebalanced-then one.balanced (
      retry_each-Rebalanced portfolio before ms n db' one.balanced.ledger d.1
        (still portfolio before m ms db db' d.0 one.others h.1))

-- A pass over the parked remainders of a portfolio keeps the lots valid. For every fill, what the
-- lots closed and opened for it and what is parked and not resolved add up to what they did before,
-- so that each quantity applied has left the anomalies and none is applied twice; no order, fill
-- row or position is written.
pub retry_unapplied_remainders-Rebalanced :
    (portfolio : ℕ) (db : Db)
    → LedgerIsValid db
    → Rebalanced db (retry_unapplied_remainders portfolio db).1
unfolding retry_unapplied_remainders Due
retry_unapplied_remainders-Rebalanced portfolio db v =
    retry_each-Rebalanced portfolio db.event_log (anomalies portfolio db.event_log) 0 db v
      (anomalies-Distinct portfolio db.event_log)
      (All-weaken _ _ (anomalies portfolio db.event_log) (λ m h unresolved. h unresolved refl)
        (anomalies-Open portfolio db.event_log (λ q i. false)))
