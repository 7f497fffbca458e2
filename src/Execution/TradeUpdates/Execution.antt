-- ===== src/Execution/TradeUpdates/Execution.antt =====
-- Recording an execution: the order's cursor reaches the broker's cumulative quantity, whatever was
-- missed before, and the two ledgers go on agreeing.
use Prim.Native.Nat.{max}
use roi_gen.Base.{
  ℕ, ◌+◌, ◌-◌, ◌≤◌, min, ◌≡◌, refl, sym, ap, ◌∙◌, Bool, true, ◌&&◌, Option, none, some, List, ℤ,
  arith, leb, ◌==◌, ==_iff, if◌then◌else◌, is_some, Bool-cases, Option-cases, inl, inr, subst,
}
use roi_gen.Models.Enums.{EventSource}
use roi_gen.Models.Rows.{Order, Fill, Db}
use roi_gen.Execution.State.{is_absorbing}
use roi_gen.Execution.Synthesis.{filled_by, recorded, add_fill, book_fill}
use roi_gen.Execution.Synthesis.Ledger.{
  LedgersAgree, KeyWithin, book_fill-LedgersAgree, filled_by-book_fill,
}
use roi_gen.Execution.TradeUpdates.{
  TradeUpdate, FillEvent, log_missing_id, fill_key, prior_avg, book_execution, record_priced,
  record_unpriced, record_with, record_execution,
}
use roi_gen.Execution.TradeUpdates.Gap.{
  missing_qty, log_order-LedgersAgree, own-cursor, log-Reaches, stay-Reaches, Reaches,
  synthesize_gap-Reaches,
}

module _ (divide : ℤ → ℕ → ℤ) (o : Order) where
  fill_key-Within :
      (u : TradeUpdate) (qty : ℕ) (price : ℤ) (db : Db)
      → filled_by o.id db.fills + qty ≡ u.order.filled_qty
      → KeyWithin (add_fill o (fill_key o u) qty price u.timestamp db).fills (fill_key o u)
  fill_key-Within u qty price db e = elim (Option-cases u.execution_id) [
    | inl absent ↦ rw absent (ground (arith, e))
    | inr (x, given) ↦ rw given tt
  ]

  book_execution-Reaches :
      (u : TradeUpdate) (qty : ℕ) (price : ℤ) (db : Db)
      → LedgersAgree db
      → u.order.filled_qty - qty ≤ filled_by o.id db.fills
      → Reaches o db.fills
          (max (filled_by o.id db.fills) u.order.filled_qty)
          (book_execution divide o u qty price db).1
  unfolding book_execution
  book_execution-Reaches u qty price db v near =
      let eff = min qty (u.order.filled_qty - filled_by o.id db.fills) in
      let is_missing : eff ≡ missing_qty divide o u db = omega arith in
      elim (Bool-cases (leb eff 0)) [
        | inl nothing ↦ rw nothing (stay-Reaches o db _ (ground arith) v)
        | inr some_left ↦
            let within = fill_key-Within u eff price db (ground arith) in
            let booked : Reaches o db.fills (max (filled_by o.id db.fills) u.order.filled_qty)
                (book_fill divide o (fill_key o u) eff price u.timestamp true db) =
              record {
                agree =
                    book_fill-LedgersAgree divide o (fill_key o u) eff price u.timestamp db v true
                      within;
                cursor = λ p.
                    filled_by-book_fill divide o (fill_key o u) eff price u.timestamp db v true p
                    ∙ (elim (Bool-cases (o.id == p)) [
                      | inl same ↦ rw same (
                          ap (λ x. filled_by x db.fills + eff) (sym ((==_iff o.id p).0 same))
                          ∙ (ground arith))
                      | inr other ↦ rw other (omega arith)
                    ]);
              } in
            rw some_left (elim (Bool-cases (is_absorbing o.status)) [
              | inl late ↦ rw late (
                  log-Reaches EventSource.broker o _ db.fills _ _ (λ n. refl, λ p known. refl)
                    booked)
              | inr open_ ↦ rw open_ booked
            ])
      ]

  -- One step after another.
  chain :
      {fs : List Fill} {db' db'' : Db} {t t' : ℕ}
      → Reaches o fs t db'
      → Reaches o db'.fills t' db''
      → Reaches o fs t' db''
  chain f g = record {
    agree = g.agree;
    cursor = λ p. g.cursor p ∙ (elim (Bool-cases (o.id == p)) [
      | inl same ↦ rw same refl
      | inr other ↦ rw other (f.cursor p ∙ (rw other refl))
    ]);
  }

  log_missing_id-LedgersAgree :
      (u : TradeUpdate) (db : Db) → LedgersAgree db → LedgersAgree (log_missing_id o u db)
  log_missing_id-LedgersAgree u db v = elim (Bool-cases (is_some u.execution_id)) [
    | inl e ↦ rw e v
    | inr e ↦ rw e (log_order-LedgersAgree EventSource.broker o _ db (λ n. refl, λ p known. refl) v)
  ]

  fills-log_missing_id : (u : TradeUpdate) (db : Db) → (log_missing_id o u db).fills ≡ db.fills
  fills-log_missing_id u db = ground arith

  -- Where the cursor ends, by whether the update carries an execution that is already recorded.
  abbrev pub cursor_of : Bool → TradeUpdate → List Fill → ℕ
  cursor_of redelivered u fills =
      if redelivered then filled_by o.id fills else max (filled_by o.id fills) u.order.filled_qty

  record_unpriced-Reaches :
      (u : TradeUpdate) (db : Db)
      → LedgersAgree db
      → (r : Option FillEvent × Db) × (record_unpriced divide o u db ≡ some r)
        × Reaches o db.fills (max (filled_by o.id db.fills) u.order.filled_qty) r.1
  unfolding record_unpriced
  record_unpriced-Reaches u db v =
      let (db', e, h) =
        synthesize_gap-Reaches divide o u.order.filled_qty u.order.filled_avg_price u.timestamp
          u.order.filled_qty db v in
      ((none, db'), rw (e, record_unpriced) refl, h)

  -- A fresh execution: the gap before it, then the execution.
  fresh-Reaches :
      (u : TradeUpdate) (qty : ℕ) (price : ℤ) (db db' : Db)
      → Reaches o db.fills (max (filled_by o.id db.fills) (u.order.filled_qty - qty)) db'
      → Reaches o db.fills
          (max (filled_by o.id db.fills) u.order.filled_qty)
          (book_execution divide o u qty price db').1
  fresh-Reaches u qty price db db' h =
      let own = own-cursor h in
      let last = book_execution-Reaches u qty price db' h.agree (omega (arith, own)) in
      subst (λ t. Reaches o db.fills t (book_execution divide o u qty price db').1)
        (let e : max (filled_by o.id db'.fills) u.order.filled_qty
              ≡ max (filled_by o.id db.fills) u.order.filled_qty =
            omega (arith, own) in
          e)
        (chain h last)

  record_logged-Reaches :
      (u : TradeUpdate) (qty : ℕ) (price : ℤ) (db db₀ : Db)
      → log_missing_id o u db ≡ db₀
      → LedgersAgree db₀
      → (r : Option FillEvent × Db) × (record_priced divide o u qty price db ≡ some r)
        × Reaches o db₀.fills (cursor_of (recorded (fill_key o u) db₀.fills) u db₀.fills) r.1
  unfolding record_priced
  record_logged-Reaches u qty price db db₀ logged v =
      let (db', e, h) =
        synthesize_gap-Reaches divide o (u.order.filled_qty - qty)
          (prior_avg divide u.order qty price) u.timestamp u.order.filled_qty db₀ v in
      elim (Bool-cases (recorded (fill_key o u) db₀.fills)) [
        | inl seen ↦ ((none, db₀), rw (logged, seen) refl, rw seen (stay-Reaches o db₀ _ refl v))
        | inr new ↦ (
          book_execution divide o u qty price db',
          rw (logged, new, e, record_priced) refl,
          rw new (fresh-Reaches u qty price db₀ db' h),
        )
      ]

  record_priced-Reaches :
      (u : TradeUpdate) (qty : ℕ) (price : ℤ) (db : Db)
      → LedgersAgree db
      → (r : Option FillEvent × Db) × (record_priced divide o u qty price db ≡ some r)
        × Reaches o db.fills (cursor_of (recorded (fill_key o u) db.fills) u db.fills) r.1
  record_priced-Reaches u qty price db v =
      let (r, e, h) =
        record_logged-Reaches u qty price db (log_missing_id o u db) refl
          (log_missing_id-LedgersAgree u db v) in
      (
        r,
        e,
        subst (λ fs. Reaches o fs (cursor_of (recorded (fill_key o u) fs) u fs) r.1)
            (fills-log_missing_id u db) h,
      )

  record_with-Reaches :
      (qty : Option ℕ) (price : Option ℤ) (u : TradeUpdate) (db : Db)
      → LedgersAgree db
      → (r : Option FillEvent × Db) × (record_with divide qty price o u db ≡ some r)
        × Reaches o db.fills
            (cursor_of
              (is_some qty && (is_some price && recorded (fill_key o u) db.fills))
              u
              db.fills)
            r.1
  unfolding record_with
  record_with-Reaches none price u db v = record_unpriced-Reaches u db v
  record_with-Reaches (some qty) none u db v = record_unpriced-Reaches u db v
  record_with-Reaches (some qty) (some price) u db v = record_priced-Reaches u qty price db v

-- Recording an update never raises. It keeps the lot tables in agreement with the fill rows, fill by
-- fill, and moves the order's cursor to the broker's cumulative quantity if that is more than was
-- recorded, events without an execution included; a redelivered execution moves nothing, and no
-- update moves the cursor of another order.
pub record_execution_converges :
    (divide : ℤ → ℕ → ℤ) (o : Order) (u : TradeUpdate) (db : Db)
    → LedgersAgree db
    → (r : Option FillEvent × Db) × (record_execution divide o u db ≡ some r)
      × Reaches o db.fills
          (cursor_of divide o
            (is_some u.qty && (is_some u.price && recorded (fill_key o u) db.fills))
            u
            db.fills)
          r.1
record_execution_converges divide o u db v = record_with-Reaches divide o u.qty u.price u db v
