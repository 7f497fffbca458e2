-- ===== src/Execution/TradeUpdates/Gap.antt =====
-- The synthesis of a gap before an execution: the order's cursor advances by it.
use Prim.Native.Nat.{max}
use roi_gen.Base.{
  ℕ, ◌+◌, ◌-◌, ◌<◌, ◌≡◌, refl, sym, ap, ◌∙◌, true, false, Option, some, List, ℤ, arith, leb, ◌==◌,
  ==_iff, if◌then◌else◌, All-weaken, Bool-cases, inl, inr, subst,
}
use roi_gen.Models.Enums.{EventSource}
use roi_gen.Models.Rows.{Order, Fill, Event, Db}
use roi_gen.Execution.Lots.Absorbed.{Plain, parked_by, parked_by-Plain}
use roi_gen.Execution.Synthesis.{
  filled_by, applied_ledger, span_price, positive_span_price, gap_tag,
}
use roi_gen.Execution.Synthesis.Ledger.{LedgersAgree, synthesize_span_books}
use roi_gen.Execution.TradeUpdates.{TradeUpdate, log_order, book_gap, synthesize_gap}

parked_by-log_order :
    (n : ℕ) (source : EventSource) (o : Order) (e : Event) (db : Db)
    → Plain e
    → parked_by n (log_order source o e db).event_log ≡ parked_by n db.event_log
parked_by-log_order n source o e db plain =
    parked_by-Plain n source (some o.portfolio_id) o.strategy_id (some o.id) e db.event_log plain

pub log_order-LedgersAgree :
    (source : EventSource) (o : Order) (e : Event) (db : Db)
    → Plain e
    → LedgersAgree db
    → LedgersAgree (log_order source o e db)
log_order-LedgersAgree source o e db plain v = record {
  ledger = record {
    lots_valid = v.ledger.lots_valid;
    keys = v.ledger.keys;
    closes_numbered = v.ledger.closes_numbered;
  };
  fills_numbered = v.fills_numbered;
  agreed =
      All-weaken _ _ db.fills
        (λ f h. omega (arith, parked_by-log_order f.id source o e db plain, h)) v.agreed;
  unreferenced =
      λ n h. omega (arith, parked_by-log_order n source o e db plain, v.unreferenced n h);
  keys_within = v.keys_within;
}

-- From one database to another the ledgers go on agreeing, the order's cursor moves to `target`,
-- and no other order's cursor moves.
pub record Reaches (o : Order) (fills : List Fill) (target : ℕ) (db' : Db) : Type 0 where
  pub agree : LedgersAgree db'
  pub cursor : (p : ℕ) → filled_by p db'.fills ≡ (if o.id == p then target else filled_by p fills)

pub own-cursor :
    {o : Order} {fs : List Fill} {db' : Db} {target : ℕ}
    → Reaches o fs target db'
    → filled_by o.id db'.fills ≡ target
own-cursor {o} h = h.cursor o.id ∙ (rw ((==_iff o.id o.id).1 refl) refl)

pub log-Reaches :
    (source : EventSource) (o : Order) (e : Event) (fs : List Fill) (db' : Db) (target : ℕ)
    → Plain e
    → Reaches o fs target db'
    → Reaches o fs target (log_order source o e db')
log-Reaches source o e fs db' target plain h = record {
  agree = log_order-LedgersAgree source o e db' plain h.agree;
  cursor = h.cursor;
}

pub stay-Reaches :
    (o : Order) (db : Db) (target : ℕ)
    → target ≡ filled_by o.id db.fills
    → LedgersAgree db
    → Reaches o db.fills target db
stay-Reaches o db target e v = record {
  agree = v;
  cursor = λ p. elim (Bool-cases (o.id == p)) [
    | inl same ↦ rw same (sym (e ∙ ap (λ x. filled_by x db.fills) ((==_iff o.id p).0 same)))
    | inr other ↦ rw other refl
  ];
}

module _ (divide : ℤ → ℕ → ℤ) (o : Order) where
  pub book_gap-Reaches :
      (gap at cum : ℕ) (db : Db) (price : ℤ)
      → 0 < gap
      → LedgersAgree db
      → Reaches o db.fills (filled_by o.id db.fills + gap) (book_gap divide o gap at cum db price)
  unfolding book_gap
  book_gap-Reaches gap at cum db price h v =
      let (agree, cursor) = synthesize_span_books divide o gap price at gap_tag db true h v in
      log-Reaches EventSource.engine o _ db.fills _ _ (λ n. refl, λ p known. refl)
        record {
          agree = agree;
          cursor = λ p. cursor p ∙ (elim (Bool-cases (o.id == p)) [
            | inl same ↦
                rw (same) (ap (λ x. filled_by x db.fills + gap) (sym ((==_iff o.id p).0 same)))
            | inr other ↦ rw other (omega arith)
          ]);
        }

  -- Filling a gap never raises, and takes the cursor up to the expected quantity.
  pub synthesize_gap-Reaches :
      (expected : ℕ) (avg : Option ℤ) (at cum : ℕ) (db : Db)
      → LedgersAgree db
      → (db' : Db) × (synthesize_gap divide o expected avg at cum db ≡ some db')
        × Reaches o db.fills (max (filled_by o.id db.fills) expected) db'
  unfolding synthesize_gap span_price
  synthesize_gap-Reaches expected avg at cum db v =
      elim (Bool-cases (leb expected (filled_by o.id db.fills))) [
        | inl covered ↦ (db, rw covered refl, stay-Reaches o db _ (ground arith) v)
        | inr short ↦
            let gap = expected - filled_by o.id db.fills in
            let price = positive_span_price divide expected avg (applied_ledger db o.id) gap in
            let positive : leb gap 0 ≡ false = ground arith in
            (
              book_gap divide o gap at cum db price,
              rw (short, positive) refl,
              subst (λ t. Reaches o db.fills t (book_gap divide o gap at cum db price))
                  (let e : filled_by o.id db.fills + gap ≡ max (filled_by o.id db.fills) expected =
                      ground arith in
                    e)
                  (book_gap-Reaches gap at cum db price (ground arith) v),
            )
      ]

  -- What is booked for an execution that ends at the broker's cumulative quantity.
  abbrev pub missing_qty : TradeUpdate → Db → ℕ
  missing_qty u db = u.order.filled_qty - filled_by o.id db.fills
