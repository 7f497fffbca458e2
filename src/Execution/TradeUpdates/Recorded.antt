-- ===== src/Execution/TradeUpdates/Recorded.antt =====
-- Recording an execution, `_record_execution` of backend/app/engine/execution/trade_updates.py,
-- leaves the rows of orders as they are.
use roi_gen.Base.{
  ℕ, ◌-◌, min, ◌≡◌, refl, sym, subst, ◌∙◌, true, Option, none, some, ℤ, leb, is_some, Bool-cases,
  Option-cases, inl, inr,
}
use roi_gen.Models.Rows.{Order, Db}
use roi_gen.Execution.State.{is_absorbing}
use roi_gen.Execution.Synthesis.{span_price, applied_ledger, recorded, gap_tag}
use roi_gen.Execution.Synthesis.Frame.{book_fill-orders, synthesize_span-orders}
use roi_gen.Execution.TradeUpdates.{
  TradeUpdate, FillEvent, fill_key, log_missing_id, prior_avg, book_gap, synthesize_gap,
  book_execution, record_priced, record_unpriced, record_with, record_execution,
}

module _ (divide : ℤ → ℕ → ℤ) (o : Order) (u : TradeUpdate) where
  -- The rows of orders are the same, if there is a result.
  abbrev Same : {A : Type 0} → Db → Option (A × Db) → Type 0
  Same db none = Unit
  Same db (some (a, db')) = db'.orders ≡ db.orders

  abbrev SameDb : Db → Option Db → Type 0
  SameDb db none = Unit
  SameDb db (some db') = db'.orders ≡ db.orders

  log_missing_id-orders : (db : Db) → (log_missing_id o u db).orders ≡ db.orders
  log_missing_id-orders db = elim (Bool-cases (is_some u.execution_id)) [
    | inl e ↦ rw e refl
    | inr e ↦ rw e refl
  ]

  synthesize_gap-orders :
      (expected : ℕ) (avg : Option ℤ) (occurred_at cum : ℕ) (db : Db)
      → SameDb db (synthesize_gap divide o expected avg occurred_at cum db)
  unfolding synthesize_gap book_gap
  synthesize_gap-orders expected avg occurred_at cum db =
      let applied = applied_ledger db o.id in
      elim (Bool-cases (leb expected applied.qty)) [
        | inl e ↦ rw e refl
        | inr e ↦
            elim (Option-cases (span_price divide expected avg applied (expected - applied.qty))) [
              | inl k ↦ rw (e, k) tt
              | inr (price, k) ↦
                  rw (e, k)
                    (synthesize_span-orders divide o (expected - applied.qty) price occurred_at
                      gap_tag true db)
            ]
      ]

  book_execution-orders :
      (qty : ℕ) (price : ℤ) (db : Db)
      → (book_execution divide o u qty price db).1.orders ≡ db.orders
  unfolding book_execution
  book_execution-orders qty price db =
      let effective = min qty (u.order.filled_qty - (applied_ledger db o.id).qty) in
      let booked = book_fill-orders divide o (fill_key o u) effective price u.timestamp true db in
      elim (Bool-cases (leb effective 0)) [
        | inl e ↦ rw e refl
        | inr e ↦ elim (Bool-cases (is_absorbing o.status)) [
          | inl k ↦ rw (e, k) booked
          | inr k ↦ rw (e, k) booked
        ]
      ]

  record_unpriced-orders : (db : Db) → Same db (record_unpriced divide o u db)
  unfolding record_unpriced
  record_unpriced-orders db =
      let kept =
        synthesize_gap-orders u.order.filled_qty u.order.filled_avg_price u.timestamp
          u.order.filled_qty db in
      elim (Option-cases (
        synthesize_gap divide o u.order.filled_qty u.order.filled_avg_price u.timestamp
          u.order.filled_qty db)) [
            | inl e ↦
                let runs : record_unpriced divide o u db ≡ none = rw (e, record_unpriced) refl in
                subst (Same db) (sym runs) tt
            | inr (db', e) ↦
                let runs : record_unpriced divide o u db ≡ some (none, db') =
                  rw (e, record_unpriced) refl in
                let filled : db'.orders ≡ db.orders = rw (e, SameDb) at kept in
                subst (Same db) (sym runs) filled
          ]

  record_priced-orders :
      (qty : ℕ) (price : ℤ) (db : Db) → Same db (record_priced divide o u qty price db)
  unfolding record_priced
  record_priced-orders qty price db =
      let logged = log_missing_id o u db in
      let prior = prior_avg divide u.order qty price in
      let gap =
        synthesize_gap divide o (u.order.filled_qty - qty) prior u.timestamp u.order.filled_qty
          logged in
      let kept =
        synthesize_gap-orders (u.order.filled_qty - qty) prior u.timestamp u.order.filled_qty
          logged in
      elim (Bool-cases (recorded (fill_key o u) logged.fills)) [
        | inl e ↦ rw e (log_missing_id-orders db)
        | inr e ↦ elim (Option-cases gap) [
          | inl k ↦ rw (e, k, Same) tt
          | inr (db', k) ↦
              let filled : db'.orders ≡ logged.orders = rw k at kept in
              rw (e, k) (book_execution-orders qty price db' ∙ (filled ∙ log_missing_id-orders db))
        ]
      ]

  record_with-orders :
      (qty : Option ℕ) (price : Option ℤ) (db : Db) → Same db (record_with divide qty price o u db)
  unfolding record_with
  record_with-orders none price db = record_unpriced-orders db
  record_with-orders (some qty) none db = record_unpriced-orders db
  record_with-orders (some qty) (some price) db = record_priced-orders qty price db

  pub record_execution-orders :
      (db : Db) (r : Option FillEvent × Db)
      → record_execution divide o u db ≡ some r
      → r.1.orders ≡ db.orders
  record_execution-orders db r e = let kept = record_with-orders u.qty u.price db in rw e at kept
