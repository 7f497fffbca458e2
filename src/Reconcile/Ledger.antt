-- ===== src/Reconcile/Ledger.antt =====
-- Adopting the broker's truth: the order's cursor reaches the broker's cumulative quantity, and the
-- lots and the fill rows go on agreeing.
use Prim.Native.Nat.{max}
use roi_gen.Base.{
  ℕ, ◌+◌, ◌-◌, ◌<◌, ◌≡◌, refl, sym, ap, ◌∙◌, Bool, true, false, Option, some, List, [], ◌∷◌, ℤ,
  arith, leb, ◌==◌, ==_iff, if◌then◌else◌, find, Bool-cases, Option-cases, inl, inr, subst,
}
use roi_gen.Models.Enums.{EventSource}
use roi_gen.Models.Rows.{Order, Fill, Db}
use roi_gen.Execution.State.{BrokerOrder}
use roi_gen.Execution.Synthesis.{
  filled_by, applied_ledger, recorded, synthetic_fill_id, recon_tag, span_price,
  positive_span_price, synthesize_span,
}
use roi_gen.Execution.Synthesis.Ledger.{LedgersAgree, synthesize_span_books}
use roi_gen.Execution.TradeUpdates.Process.{is_failed}
use roi_gen.Execution.TradeUpdates.Gap.{Reaches, log-Reaches, stay-Reaches}
use roi_gen.Execution.TradeUpdates.Surroundings.{SameLedgers, SameLedgers-agree, same_refl}
use roi_gen.Reconcile.Adopt.{
  refresh, revive, or_now, book_span, synthesize_missing, Adopted, snapshot_onto, adopt_locked,
  adopt_truth,
}

-- Writing orders leaves the ledgers alone.
pub put_orders-Same : (db : Db) (os : List Order) → SameLedgers db (record db { orders = os })
put_orders-Same db os = record {
  lots = refl;
  lot_closes = refl;
  fills = refl;
  parked = λ n. refl;
  next_id = omega arith;
}

find-holds : (p : Order → Bool) (os : List Order) (o : Order) → find p os ≡ some o → p o ≡ true
find-holds p [] o h = ground arith
find-holds p (x ∷ os) o h = elim (Bool-cases (p x)) [
  | inl e ↦ grind (arith, e, h)
  | inr e ↦ find-holds p os o (rw e at h)
]

pub refresh-id : (local : Order) (db : Db) → (refresh local db).id ≡ local.id
unfolding refresh
refresh-id local db = elim (Option-cases (find (λ o. o.id == local.id) db.orders)) [
  | inl e ↦ rw (e, refresh) refl
  | inr (o, e) ↦ rw (e, refresh) ((==_iff o.id local.id).0 (find-holds _ db.orders o e))
]

revive-Same : (o : Order) (b : BrokerOrder) (db : Db) → SameLedgers db (revive o b db).1
unfolding revive
revive-Same o b db = elim (Bool-cases (is_failed o.status)) [
  | inl e ↦ rw e (record {
    lots = refl;
    lot_closes = refl;
    fills = refl;
    parked = λ n. omega arith;
    next_id = omega arith;
  })
  | inr e ↦ rw e (same_refl db)
]

revive-id : (o : Order) (b : BrokerOrder) (db : Db) → (revive o b db).0.id ≡ o.id
unfolding revive
revive-id o b db = ground arith

-- Where two rows have the same id, what one's cursor reaches the other's reaches.
pub Reaches-id :
    {o p : Order} {fs : List Fill} {target : ℕ} {db' : Db}
    → o.id ≡ p.id
    → Reaches o fs target db'
    → Reaches p fs target db'
Reaches-id e h = record { agree = h.agree; cursor = λ q. rw e at (h.cursor q) }

-- Steps that leave the ledgers alone, before and after.
pub Reaches-after :
    {o : Order} {fs : List Fill} {target : ℕ} {db' db'' : Db}
    → SameLedgers db' db''
    → Reaches o fs target db'
    → Reaches o fs target db''
Reaches-after s h = record {
  agree = SameLedgers-agree s h.agree;
  cursor = λ p. rw s.fills (h.cursor p);
}

module _ (divide : ℤ → ℕ → ℤ) (o : Order) where
  book_span-Reaches :
      (span : ℕ) (price : ℤ) (at : ℕ) (cum : Option ℕ) (db : Db)
      → 0 < span
      → LedgersAgree db
      → Reaches o db.fills
          (filled_by o.id db.fills + span)
          (book_span divide o span price at cum db).1
  unfolding book_span
  book_span-Reaches span price at cum db h v =
      let (agree, cursor) = synthesize_span_books divide o span price at recon_tag db false h v in
      let booked : Reaches o db.fills (filled_by o.id db.fills + span)
          (synthesize_span divide o span price at recon_tag false db) =
        record {
          agree = agree;
          cursor = λ p. cursor p ∙ (elim (Bool-cases (o.id == p)) [
            | inl same ↦
                rw same (ap (λ x. filled_by x db.fills + span) (sym ((==_iff o.id p).0 same)))
            | inr other ↦ rw other (omega arith)
          ]);
        } in
      elim (Bool-cases (
        recorded (synthetic_fill_id recon_tag o.id ((applied_ledger db o.id).qty + span))
          db.fills)) [
            | inl seen ↦ rw seen booked
            | inr new ↦ rw new (
                log-Reaches EventSource.system o _ db.fills _ _ (λ n. refl, λ p known. refl) booked)
          ]

  -- Synthesizing what is missing never raises, and takes the cursor up to the cumulative quantity.
  pub synthesize_missing-Reaches :
      (cum : ℕ) (avg : Option ℤ) (at : ℕ) (audit : Option ℕ) (db : Db)
      → LedgersAgree db
      → (r : ℕ × Db) × (synthesize_missing divide o cum avg at audit db ≡ some r)
        × Reaches o db.fills (max (filled_by o.id db.fills) cum) r.1
  unfolding synthesize_missing span_price
  synthesize_missing-Reaches cum avg at audit db v =
      elim (Bool-cases (leb cum (filled_by o.id db.fills))) [
        | inl covered ↦ ((0, db), rw covered refl, stay-Reaches o db _ (ground arith) v)
        | inr short ↦
            let delta = cum - filled_by o.id db.fills in
            let price = positive_span_price divide cum avg (applied_ledger db o.id) delta in
            let positive : leb delta 0 ≡ false = ground arith in
            (
              book_span divide o delta price at audit db,
              rw (short, positive) refl,
              subst (λ t. Reaches o db.fills t (book_span divide o delta price at audit db).1)
                  (let e : filled_by o.id db.fills + delta ≡ max (filled_by o.id db.fills) cum =
                      ground arith in
                    e)
                  (book_span-Reaches delta price at audit db (ground arith) v),
            )
      ]

-- Where the cursor of an order ends, by whether fills are synthesized.
abbrev pub caught_up : Bool → ℕ → ℕ → ℕ
caught_up synthesize_fills cursor cum = if synthesize_fills then max cursor cum else cursor

module _ (divide : ℤ → ℕ → ℤ) (b : BrokerOrder) (now : ℕ) where
  abbrev pub Adopts : Order → Bool → Db → Option (Adopted divide) → Type 0
  Adopts o synthesize_fills db result =
      (a : Adopted divide) × (result ≡ some a)
      × Reaches o db.fills (caught_up synthesize_fills (filled_by o.id db.fills) b.filled_qty) a.db

  adopt_locked-Adopts :
      (o : Order) (synthesize_fills : Bool) (db : Db)
      → LedgersAgree db
      → Adopts o synthesize_fills db (adopt_locked divide o b now synthesize_fills db)
  unfolding adopt_locked
  adopt_locked-Adopts o true db v =
      let revived = revive o b db in
      let same = revive-Same o b db in
      let (r, e, h) =
        synthesize_missing-Reaches divide revived.0 b.filled_qty b.filled_avg_price
          (or_now b.filled_at now) (some b.filled_qty) revived.1 (SameLedgers-agree same v) in
      (
        snapshot_onto divide o revived.0 b r,
        rw (e, adopt_locked) refl,
        Reaches-after (put_orders-Same r.1 _) record {
          agree = h.agree;
          cursor = λ p. rw (revive-id o b db, same.fills) at (h.cursor p);
        },
      )
  adopt_locked-Adopts o false db v =
      let revived = revive o b db in
      (
        snapshot_onto divide o revived.0 b (0, revived.1),
        refl,
        Reaches-after (put_orders-Same revived.1 _)
            (Reaches-after (revive-Same o b db) (stay-Reaches o db _ refl v)),
      )

  -- Adopting a broker snapshot never raises: the lot tables and the fill rows go on agreeing, the
  -- cursor of the order ends at the larger of what was recorded and the broker's cumulative
  -- quantity (where fills are synthesized, else where it was), and no other order's cursor moves,
  -- however stale the row that was read and whatever its status.
  pub adopt_truth-Adopts :
      (local : Order) (synthesize_fills : Bool) (db : Db)
      → LedgersAgree db
      → Adopts local synthesize_fills db (adopt_truth divide local b now synthesize_fills db)
  unfolding adopt_truth
  adopt_truth-Adopts local synthesize_fills db v =
      let (a, e, h) = adopt_locked-Adopts (refresh local db) synthesize_fills db v in
      let own = Reaches-id {p = local} (refresh-id local db) h in
      (a, e, rw (refresh-id local db) at own)
