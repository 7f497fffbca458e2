-- ===== src/Execution/Synthesis/Frame.antt =====
-- The rows of orders that booking a fill leaves alone: backend/app/engine/execution/synthesis.py.
use roi_gen.Base.{ℕ, ◌+◌, ◌≡◌, refl, Bool, true, false, ℤ, Bool-cases, inl, inr}
use roi_gen.Models.Rows.{Order, FillKey, Db}
use roi_gen.Execution.Lots.Frame.{apply_fill_to_lots-Untouched}
use roi_gen.Execution.Synthesis.{
  applied_ledger, lot_fill, add_fill, recorded, synthetic_fill_id, book_fill, synthesize_span,
}

module _ (divide : ℤ → ℕ → ℤ) (o : Order) where
  pub book_fill-orders :
      (key : FillKey) (qty : ℕ) (price : ℤ) (occurred_at : ℕ) (apply_position : Bool) (db : Db)
      → (book_fill divide o key qty price occurred_at apply_position db).orders ≡ db.orders
  unfolding book_fill
  book_fill-orders key qty price occurred_at true db =
      (apply_fill_to_lots-Untouched (lot_fill o qty price occurred_at db.next_id)
        (add_fill o key qty price occurred_at db)).orders
  book_fill-orders key qty price occurred_at false db =
      (apply_fill_to_lots-Untouched (lot_fill o qty price occurred_at db.next_id)
        (add_fill o key qty price occurred_at db)).orders

  pub synthesize_span-orders :
      (qty : ℕ) (price : ℤ) (occurred_at tag : ℕ) (apply_position : Bool) (db : Db)
      → (synthesize_span divide o qty price occurred_at tag apply_position db).orders ≡ db.orders
  unfolding synthesize_span
  synthesize_span-orders qty price occurred_at tag apply_position db =
      let key = synthetic_fill_id tag o.id ((applied_ledger db o.id).qty + qty) in
      elim (Bool-cases (recorded key db.fills)) [
        | inl e ↦ rw e refl
        | inr e ↦ rw e (book_fill-orders key qty price occurred_at apply_position db)
      ]
