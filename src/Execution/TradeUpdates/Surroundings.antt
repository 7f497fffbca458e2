-- ===== src/Execution/TradeUpdates/Surroundings.antt =====
-- What surrounds the recorded execution leaves the lot tables and the fills alone: adopting a failed
-- row, the log of skipped snapshots, and the legs of a bracket.
use roi_gen.Base.{
  ℕ, ◌≤◌, ◌≡◌, refl, ◌∙◌, Option, none, some, List, [], ◌∷◌, arith, All-weaken, Bool-cases, inl,
  inr,
}
use roi_gen.Models.Enums.{StatusText, TransitionPlan, apply}
use roi_gen.Models.Rows.{Order, Lot, LotClose, Db}
use roi_gen.Execution.Lots.Validity.{LotIsValid}
use roi_gen.Execution.Lots.Absorbed.{absorbed, parked_by}
use roi_gen.Execution.State.{BrokerOrder}
use roi_gen.Execution.Synthesis.Ledger.{LedgersAgree}
use roi_gen.Execution.Legs.{knows_broker_id, knows_client_id, persist_leg, persist_legs}
use roi_gen.Execution.TradeUpdates.{TradeUpdate}
use roi_gen.Execution.TradeUpdates.Process.{resurrect, is_failed, log_skipped}

-- The lot tables and the fills are the same, and so are the parked remainders.
pub record SameLedgers (old new : Db) : Type 0 where
  pub lots : new.lots ≡ old.lots
  pub lot_closes : new.lot_closes ≡ old.lot_closes
  pub fills : new.fills ≡ old.fills
  pub parked : (n : ℕ) → parked_by n new.event_log ≡ parked_by n old.event_log
  pub next_id : old.next_id ≤ new.next_id

pub renumber_le :
    (cs : List LotClose) (m n : ℕ) (l : Lot) → m ≤ n → LotIsValid cs m l → LotIsValid cs n l
renumber_le cs m n l h v = record {
  positive = v.positive;
  accounted = v.accounted;
  realized = v.realized;
  live = v.live;
  done = v.done;
  numbered = omega (arith, v.numbered);
  attributed = v.attributed;
}

pub same-absorbed : {old new : Db} → SameLedgers old new → (n : ℕ) → absorbed n new ≡ absorbed n old
same-absorbed s n = rw (s.lots, s.lot_closes, s.parked n) refl

pub SameLedgers-agree : {old new : Db} → SameLedgers old new → LedgersAgree old → LedgersAgree new
SameLedgers-agree {old} {new} s v = record {
  ledger = record {
    lots_valid =
        rw (s.lots, s.lot_closes)
          (All-weaken _ _ old.lots (λ l h. renumber_le old.lot_closes _ _ l s.next_id h)
            v.ledger.lots_valid);
    keys = rw s.lots v.ledger.keys;
    closes_numbered =
        rw s.lot_closes (
          All-weaken _ _ old.lot_closes (λ c h. omega (arith, s.next_id)) v.ledger.closes_numbered);
  };
  fills_numbered =
      rw s.fills (All-weaken _ _ old.fills (λ f h. omega (arith, s.next_id)) v.fills_numbered);
  agreed = rw s.fills (All-weaken _ _ old.fills (λ f h. same-absorbed s f.id ∙ h) v.agreed);
  unreferenced = λ n h. same-absorbed s n ∙ v.unreferenced n (omega (arith, s.next_id));
  keys_within = rw s.fills v.keys_within;
}

pub same_refl : (db : Db) → SameLedgers db db
same_refl db = record {
  lots = refl;
  lot_closes = refl;
  fills = refl;
  parked = λ n. refl;
  next_id = omega arith;
}

pub same_trans : {a b c : Db} → SameLedgers a b → SameLedgers b c → SameLedgers a c
same_trans p q = record {
  lots = q.lots ∙ p.lots;
  lot_closes = q.lot_closes ∙ p.lot_closes;
  fills = q.fills ∙ p.fills;
  parked = λ n. q.parked n ∙ p.parked n;
  next_id = omega (arith, p.next_id, q.next_id);
}

pub resurrect-Same : (o : Order) (u : TradeUpdate) (db : Db) → SameLedgers db (resurrect o u db).1
unfolding resurrect
resurrect-Same o u db = elim (Bool-cases (is_failed o.status)) [
  | inl e ↦ rw e (record {
    lots = refl;
    lot_closes = refl;
    fills = refl;
    parked = λ n. omega arith;
    next_id = omega arith;
  })
  | inr e ↦ rw e (same_refl db)
]

pub log_skipped-Same :
    (plan : TransitionPlan) (before : StatusText) (o : Order) (u : TradeUpdate) (db : Db)
    → SameLedgers db (log_skipped plan before o u db)
log_skipped-Same apply before o u db = same_refl db
log_skipped-Same plan before o u db = record {
  lots = refl;
  lot_closes = refl;
  fills = refl;
  parked = λ n. omega arith;
  next_id = omega arith;
}

pub persist_leg-Same :
    (p : Order) (ex : List Order) (leg : BrokerOrder) (client : Option ℕ) (db : Db) (n : ℕ)
    → SameLedgers db (persist_leg p ex leg client db n).0
unfolding persist_leg
persist_leg-Same p ex leg none db n = elim (Bool-cases (knows_broker_id ex leg.broker_order_id)) [
  | inl e ↦ rw e (same_refl db)
  | inr e ↦ rw e (same_refl db)
]
persist_leg-Same p ex leg (some c) db n =
    elim (Bool-cases (knows_broker_id ex leg.broker_order_id)) [
      | inl e ↦ rw e (same_refl db)
      | inr e ↦ elim (Bool-cases (knows_client_id ex c)) [
        | inl k ↦ rw (e, k) (same_refl db)
        | inr k ↦
            rw (e, k)
              (record {
                lots = refl;
                lot_closes = refl;
                fills = refl;
                parked = λ m. refl;
                next_id = omega arith;
              })
      ]
    ]

pub persist_legs-Same :
    (p : Order) (ex : List Order) (legs : List BrokerOrder) (db : Db) (n : ℕ)
    → SameLedgers db (persist_legs p ex legs db n).0
unfolding persist_legs
persist_legs-Same p ex [] db n = same_refl db
persist_legs-Same p ex (leg ∷ legs) db n =
    let after = persist_leg p ex leg leg.client_order_id db n in
    same_trans (persist_leg-Same p ex leg leg.client_order_id db n)
      (persist_legs-Same p ex legs after.0 after.1)
