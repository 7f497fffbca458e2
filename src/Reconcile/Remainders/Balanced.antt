-- ===== src/Reconcile/Remainders/Balanced.antt =====
-- What the rows of one retry do to the parked quantities, and to the anomalies that wait.
use roi_gen.Base.{
  ℕ, ◌+◌, ◌≡◌, ◌≢◌, refl, sym, ◌∙◌, subst, Bool, false, ◌&&◌, not, some, List, arith, ltb, leb,
  if◌then◌else◌, column_is, All-weaken, Bool-cases, inl, inr,
}
use roi_gen.Models.Rows.{EventLog, Db}
use roi_gen.Execution.Lots.{LotApplication}
use roi_gen.Execution.Lots.Validity.{LedgerIsValid}
use roi_gen.Execution.Lots.Absorbed.{absorbed, parked_by, resolve}
use roi_gen.Execution.Lots.Frame.{Untouched}
use roi_gen.Execution.Synthesis.Ledger.{LedgersAgree}
use roi_gen.Reconcile.Remainders.{
  Remainder, remainder_alert_cycles, companion, resolution, log_applied, log_failed,
}
use roi_gen.Reconcile.Remainders.Open.{Open, remainder_share, Open-cong, open_parked-less}

-- The lots stay valid, the tables hold the same for every fill, and no order, fill or position is
-- written.
pub record Rebalanced (old new : Db) : Type 0 where
  pub ledger : LedgerIsValid new
  pub held : (n : ℕ) → absorbed n new ≡ absorbed n old
  pub untouched : Untouched old new

pub Rebalanced-refl : (db : Db) → LedgerIsValid db → Rebalanced db db
Rebalanced-refl db v = record {
  ledger = v;
  held = λ n. refl;
  untouched = record { orders = refl; fills = refl; positions = refl; next_id = omega arith };
}

pub Rebalanced-then : {a b c : Db} → Rebalanced a b → Rebalanced b c → Rebalanced a c
Rebalanced-then p q = record {
  ledger = q.ledger;
  held = λ n. q.held n ∙ p.held n;
  untouched = record {
    orders = q.untouched.orders ∙ p.untouched.orders;
    fills = q.untouched.fills ∙ p.untouched.fills;
    positions = q.untouched.positions ∙ p.untouched.positions;
    next_id = omega (arith, p.untouched.next_id, q.untouched.next_id);
  };
}

-- Ledgers that agree go on agreeing.
pub Rebalanced-agree : {old new : Db} → Rebalanced old new → LedgersAgree old → LedgersAgree new
Rebalanced-agree {old} {new} h v = record {
  ledger = h.ledger;
  fills_numbered =
      rw h.untouched.fills
        (All-weaken _ _ old.fills (λ f k. omega (arith, h.untouched.next_id)) v.fills_numbered);
  agreed = rw h.untouched.fills (All-weaken _ _ old.fills (λ f k. h.held f.id ∙ k) v.agreed);
  unreferenced = λ n k. h.held n ∙ v.unreferenced n (omega (arith, h.untouched.next_id));
  keys_within = rw h.untouched.fills v.keys_within;
}

-- An anomaly that nothing has resolved yet.
abbrev pub Waiting : ℕ → Remainder → List EventLog → Type 0
Waiting portfolio m = Open portfolio m (λ q i. false)

-- Resolving an anomaly that waits takes its share away.
parked_by-resolution :
    (n portfolio : ℕ) (m : Remainder) (r : LotApplication) (db : Db)
    → Waiting portfolio m db.event_log
    → parked_by n (companion portfolio m (resolution m r) db).event_log + remainder_share n m
      ≡ parked_by n db.event_log
parked_by-resolution n portfolio m r db h = omega (
  arith,
  open_parked-less n portfolio m (λ q i. false)
      (resolve (resolution m r) (some portfolio) (λ q i. false)) db.event_log (λ q i. refl) h,
)

-- The residual's own share.
unfoldable pub residual_share : ℕ → Remainder → ℕ → ℕ
residual_share n m qty = if column_is m.fill_id n then qty else 0

pub log_applied-parked :
    (n portfolio : ℕ) (m : Remainder) (r : LotApplication) (db : Db)
    → Waiting portfolio m db.event_log
    → parked_by n (log_applied portfolio m r db).event_log + remainder_share n m
      ≡ parked_by n db.event_log + residual_share n m r.unapplied_qty
unfolding residual_share
log_applied-parked n portfolio m r db h =
    let less = parked_by-resolution n portfolio m r db h in
    elim (Bool-cases (ltb 0 r.unapplied_qty)) [
      | inl e ↦ rw e (omega (arith, less))
      | inr e ↦ rw e (ground (arith, less, e))
    ]

pub log_failed-parked :
    (n portfolio : ℕ) (m : Remainder) (cycle : ℕ) (alerted : Bool) (db : Db)
    → parked_by n (log_failed portfolio m cycle alerted db).event_log ≡ parked_by n db.event_log
log_failed-parked n portfolio m cycle alerted db =
    elim (Bool-cases (leb remainder_alert_cycles cycle && not alerted)) [
      | inl e ↦ rw e (ground arith)
      | inr e ↦ rw e (ground arith)
    ]

-- Another anomaly goes on waiting.
pub log_applied-Waiting :
    (portfolio : ℕ) (m x : Remainder) (r : LotApplication) (db : Db)
    → m.anomaly_id ≢ x.anomaly_id
    → Waiting portfolio x db.event_log
    → Waiting portfolio x (log_applied portfolio m r db).event_log
log_applied-Waiting portfolio m x r db ne h =
    let open_still =
      Open-cong portfolio x (λ q i. false)
        (resolve (resolution m r) (some portfolio) (λ q i. false)) db.event_log (ground (arith, ne))
        h in
    elim (Bool-cases (ltb 0 r.unapplied_qty)) [
      | inl e ↦ rw e (inr (inr open_still))
      | inr e ↦ rw e (inr open_still)
    ]

pub log_failed-Waiting :
    (portfolio : ℕ) (m x : Remainder) (cycle : ℕ) (alerted : Bool) (db : Db)
    → Waiting portfolio x db.event_log
    → Waiting portfolio x (log_failed portfolio m cycle alerted db).event_log
log_failed-Waiting portfolio m x cycle alerted db h =
    elim (Bool-cases (leb remainder_alert_cycles cycle && not alerted)) [
      | inl e ↦ rw e (inr (inr h))
      | inr e ↦ rw e (inr h)
    ]

-- Only the log differs.
pub Relogged : Db → Db → Type 0
Relogged db new = new ≡ record db { event_log = new.event_log }

pub log_applied-Relogged :
    (portfolio : ℕ) (m : Remainder) (r : LotApplication) (db : Db)
    → Relogged db (log_applied portfolio m r db)
unfolding Relogged
log_applied-Relogged portfolio m r db = elim (Bool-cases (ltb 0 r.unapplied_qty)) [
  | inl e ↦ rw e refl
  | inr e ↦ rw e refl
]

pub log_failed-Relogged :
    (portfolio : ℕ) (m : Remainder) (cycle : ℕ) (alerted : Bool) (db : Db)
    → Relogged db (log_failed portfolio m cycle alerted db)
unfolding Relogged
log_failed-Relogged portfolio m cycle alerted db =
    elim (Bool-cases (leb remainder_alert_cycles cycle && not alerted)) [
      | inl e ↦ rw e refl
      | inr e ↦ rw e refl
    ]

pub Relogged-Rebalanced :
    (old db new : Db)
    → LedgerIsValid db
    → Untouched old db
    → Relogged db new
    → ((n : ℕ) → absorbed n (record db { event_log = new.event_log }) ≡ absorbed n old)
    → Rebalanced old new
unfolding Relogged
Relogged-Rebalanced old db new v u same held = subst (Rebalanced old) (sym same) (record {
  ledger = record { lots_valid = v.lots_valid; keys = v.keys; closes_numbered = v.closes_numbered };
  held = held;
  untouched = record {
    orders = u.orders;
    fills = u.fills;
    positions = u.positions;
    next_id = u.next_id;
  };
})
